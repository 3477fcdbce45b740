-- ===== src/Build/Inputs.antt =====
-- `LoadInputs` and `createTempDockerfile` of pkg/build/build.go, and the tests of pkg/build/utils.go.
-- The world is the list of the temporary directories that exist. `Host` holds the answers of the file
-- system, of the input stream and of the packages that read paths, addresses and tar headers.
pub mod Release
use buildkit_cli_for_kubectl.Prelude.{
  ℕ, String, ◌<>◌, Bool, true, false, not, ◌&&◌, ◌||◌, Option, none, some, List, [], ◌∷◌, ◌++◌,
  Result, ok, err, Error, errorf, wrapf, if◌then◌else◌, ◌==◌, nat_eq, keep, Map, insert,
}
use buildkit_cli_for_kubectl.Prelude.Io.{Io, pure, throw, lift, ◌>>=◌}

pub record Host : Type 0 where
  pub is_local_dir : String → Bool
  pub is_remote : String → Bool
  pub is_tar : List ℕ → Bool
  pub dir : String → String
  pub base : String → String
  -- `Peek` on the input stream, where the end of the stream is no error
  pub peek : Result (List ℕ)
  pub upload_address : String
  -- `TempDir` with a pattern, where these directories exist
  pub temp_dir : String → List String → Result String
  pub create_file : String → Result (Unit {0})
  pub copy_reader : Result (Unit {0})

-- `Inputs`, less the stream
pub record BuildInputs : Type 0 where
  pub context_path : String
  pub dockerfile_path : String

-- The fields of `client.SolveOpt` that `LoadInputs` sets; of the session, the number of uploads added.
pub record Target : Type 0 where
  pub frontend_attrs : Map String
  pub local_dirs : Map String
  pub uploads : List String

abbrev pub World : Type 0
World = List String

prefix_eq : List ℕ → List ℕ → Bool
prefix_eq [] header = true
prefix_eq (m ∷ ms) [] = false
prefix_eq (m ∷ ms) (b ∷ header) = nat_eq m b && prefix_eq ms header

unfoldable pub is_archive : Host → List ℕ → Bool
unfolding prefix_eq
is_archive host header =
    prefix_eq (66 ∷ 90 ∷ 104 ∷ []) header
    || (prefix_eq (31 ∷ 139 ∷ 8 ∷ []) header
        || (prefix_eq (253 ∷ 55 ∷ 122 ∷ 88 ∷ 90 ∷ 0 ∷ []) header || host.is_tar header))

-- The directory exists from now on.
made_dir : Result String → Io World String
made_dir (ok d) w = (ok d, d ∷ w)
made_dir (err e) w = (err e, w)

make_temp : Host → String → Io World String
unfolding made_dir
make_temp host pattern w = made_dir (host.temp_dir pattern w) w

-- `os.RemoveAll`
unfoldable pub remove_all : String → World → World
remove_all d w = keep (λ x. not (x == d)) w

unfoldable pub create_temp_dockerfile : Host → Io World String
unfolding make_temp
create_temp_dockerfile host = do
  d ← make_temp host "dockerfile"
  u ← lift (host.create_file (d <> "/Dockerfile"))
  v ← lift host.copy_reader
  pure d

-- The local variables behind the `switch`; `reader` tells whether `dockerfileReader` is set.
pub record Found : Type 0 where
  pub target : Target
  pub reader : Bool
  pub dockerfile_dir : String
  pub dockerfile_name : String
  pub to_remove : List String

abbrev set_context : String → Target → Target
set_context v t = record t { frontend_attrs = insert "context" v t.frontend_attrs }

abbrev set_dir : String → String → Target → Target
set_dir k v t = record t { local_dirs = insert k v t.local_dirs }

-- `inp.ContextPath, _ = ioutil.TempDir("", "empty-dir")`: an error leaves the empty text.
empty_dir : Host → Io World String
unfolding make_temp
empty_dir host w = no_error (make_temp host "empty-dir" w)
  where
    no_error : Result String × World → Result String × World
    no_error (ok d, v) = (ok d, v)
    no_error (err e, v) = (ok "", v)

stdin_dockerfile : Host → BuildInputs → Target → Io World Found
unfolding empty_dir
stdin_dockerfile host inp t =
    if not (inp.dockerfile_path == "")
    then throw
        (errorf "ambiguous Dockerfile source: both stdin and flag correspond to Dockerfiles" [])
    else do
      d ← empty_dir host
      pure (record {
        target = set_dir "context" d t;
        reader = true;
        dockerfile_dir = "";
        dockerfile_name = inp.dockerfile_path;
        to_remove = d ∷ [];
      })

stdin_archive : Host → BuildInputs → Target → Found
stdin_archive host inp t = record {
  target = record (set_context host.upload_address t) {
    uploads = t.uploads ++ host.upload_address ∷ [];
  };
  reader = false;
  dockerfile_dir = "";
  dockerfile_name = inp.dockerfile_path;
  to_remove = [];
}

from_header : Host → BuildInputs → Target → Result (List ℕ) → Io World Found
unfolding stdin_archive stdin_dockerfile
from_header host inp t (err e) = throw (wrapf e "failed to peek context header from STDIN" [])
from_header host inp t (ok magic) =
    if is_archive host magic then pure (stdin_archive host inp t) else stdin_dockerfile host inp t

from_stdin : Host → BuildInputs → Target → Io World Found
unfolding from_header
from_stdin host inp t =
    if inp.dockerfile_path == "-"
    then throw (errorf "invalid argument: can't use stdin for both build context and dockerfile" [])
    else from_header host inp t host.peek

from_dir : Host → BuildInputs → Target → Found
from_dir host inp t =
    let t' = set_dir "context" inp.context_path t in
    let found : Bool → String → String → Found = λ reader dir name. record {
      target = t';
      reader = reader;
      dockerfile_dir = dir;
      dockerfile_name = name;
      to_remove = [];
    } in
    if inp.dockerfile_path == "-"
    then found true "" inp.dockerfile_path
    else if inp.dockerfile_path == ""
    then found false inp.context_path inp.dockerfile_path
    else found false (host.dir inp.dockerfile_path) (host.base inp.dockerfile_path)

from_remote : Host → BuildInputs → Target → Io World Found
from_remote host inp t =
    if inp.dockerfile_path == "-"
    then throw (errorf "Dockerfile from stdin is not supported with remote contexts" [])
    else pure (record {
      target = set_context inp.context_path t;
      reader = false;
      dockerfile_dir = "";
      dockerfile_name = inp.dockerfile_path;
      to_remove = [];
    })

-- The `switch`.
pub find_context : Host → BuildInputs → Target → Io World Found
unfolding from_stdin from_dir from_remote
find_context host inp t =
    if inp.context_path == "-"
    then from_stdin host inp t
    else if host.is_local_dir inp.context_path
    then pure (from_dir host inp t)
    else if host.is_remote inp.context_path
    then from_remote host inp t
    else throw (errorf "unable to prepare context: path %q not found" (inp.context_path ∷ []))

store_reader : Host → Found → Io World Found
store_reader host found = do
  d ← create_temp_dockerfile host
  pure (record found {
    dockerfile_dir = d;
    dockerfile_name = "Dockerfile";
    to_remove = found.to_remove ++ d ∷ [];
  })

-- `if dockerfileReader != nil`
pub store_dockerfile : Host → Found → Io World Found
unfolding store_reader
store_dockerfile host found = if found.reader then store_reader host found else pure found

abbrev pub or_default : String → String
or_default name = if name == "" then "Dockerfile" else name

pub finish_target : Found → Target
finish_target found =
    let named = record found.target {
      frontend_attrs =
          insert "filename" (or_default found.dockerfile_name) found.target.frontend_attrs;
    } in
    if found.dockerfile_dir == "" then named else set_dir "dockerfile" found.dockerfile_dir named

-- The target, and the directories that `release` removes.
unfoldable pub load_inputs : Host → BuildInputs → Target → Io World (Target × List String)
unfolding find_context store_dockerfile finish_target
load_inputs host inp t =
    if inp.context_path == ""
    then throw (errorf "please specify build context (e.g. \".\" for the current directory)" [])
    else do
      found ← find_context host inp t
      stored ← store_dockerfile host found
      pure (finish_target stored, stored.to_remove)

-- `release`
unfoldable pub release : List String → World → World
release [] w = w
release (d ∷ ds) w = release ds (remove_all d w)
