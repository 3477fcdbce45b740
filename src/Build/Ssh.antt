-- ===== src/Build/Ssh.antt =====
-- `ParseSSHSpecs` and `parseSSH` of pkg/build/ssh.go. The agent provider is buildkit's:
-- `new_ssh_agent_provider` is an argument.
use buildkit_cli_for_kubectl.Prelude.{
  String, ◌≡◌, Option, none, some, List, [], ◌∷◌, Result, ok, ◌>>=◌, All, map_results,
}
use buildkit_cli_for_kubectl.Text.Split.{cut, split, join, Lacks, split-join, cut-eq-none}
use buildkit_cli_for_kubectl.Text.Fields.{key_value, cut-key_value}

-- `sshprovider.AgentConfig`
pub record AgentConfig : Type 0 where
  pub id : String
  pub paths : List String

ssh_parts : String → Option (String × String) → AgentConfig
ssh_parts value none = record { id = value; paths = [] }
ssh_parts value (some (id, paths)) = record { id = id; paths = split b',' paths }

unfoldable pub parse_ssh : String → Result AgentConfig
unfolding ssh_parts
parse_ssh value = ok (ssh_parts value (cut b'=' value))

unfoldable pub parse_ssh_specs {ℓ} :
    {Provider : Type ℓ} → (List AgentConfig → Result Provider) → List String → Result Provider
parse_ssh_specs new_ssh_agent_provider sl = do
  configs ← map_results parse_ssh sl
  new_ssh_agent_provider configs

-- The text form of a configuration, `id` or `id=path,path`.
unfoldable pub print_ssh : AgentConfig → String
print_ssh c = elim c.paths [ [] ↦ c.id | p ∷ ps ↦ key_value c.id (join "," (p ∷ ps)) ]

parse_ssh-paths :
    (id : String) (ps : List String)
    → Lacks b'=' id
    → All (Lacks b',') ps
    → parse_ssh (print_ssh (record { id = id; paths = ps })) ≡ ok (record { id = id; paths = ps })
unfolding parse_ssh print_ssh
parse_ssh-paths id [] h k = rw (cut-eq-none b'=' id h)
parse_ssh-paths id (p ∷ ps) h k =
    rw (cut-key_value id (join "," (p ∷ ps)) h) (rw (split-join "," (p ∷ ps) (cc) k))

-- Parsing the text form of a configuration gives the configuration back, where the id holds no `=`
-- and no path holds a comma.
pub parse_ssh-print_ssh :
    (c : AgentConfig) → Lacks b'=' c.id → All (Lacks b',') c.paths → parse_ssh (print_ssh c) ≡ ok c
parse_ssh-print_ssh c h k = parse_ssh-paths c.id c.paths h k
