-- ===== src/Lib.antt =====
-- The parts of buildkit-cli-for-kubectl, a kubectl plugin that builds images with BuildKit in a cluster.
--
-- A build command's flags are parsed (pkg/build), the drivers that build are chosen, and for each target
-- `toSolveOpt` puts together what BuildKit is asked to solve. A driver (pkg/driver/kubernetes) turns its
-- options into a deployment and a config map, chooses a pod of the deployment and answers what its
-- runtime can export; the features that it answers are what `toSolveOpt` checks exports against. Before a
-- build, `Boot` asks the driver for its clients and lets it bootstrap the builder where none is running:
-- the driver creates the config map and the deployment and waits until the replicas are ready. A session
-- asks the driver for the credentials of registries, and an image that several builders have built is put
-- together from their manifests (pkg/imagetools).
--
-- Files and the code that they are about:
--   Build.Cache, Build.Entitlements, Build.Secrets, Build.Ssh, Build.Hosts, Build.Outputs: the parsers
--     of pkg/build/cache.go, entitlements.go, secrets.go, ssh.go, utils.go and output.go, a function each
--     for a Go function and for each of its steps.
--   Build.Drivers: filterAvailableDrivers to resolveDrivers of pkg/build/build.go. Build.Drivers.Booting
--     has ensureBooted and the start of Build, where the drivers are chosen.
--   Build.Inputs: LoadInputs of pkg/build/build.go, on the list of temporary directories that exist.
--   Build.SolveOpt: toSolveOpt of pkg/build/build.go, on the directories, the docker loaders that run and
--     the deferred calls.
--   Build.Orchestration: the first loop of Build of pkg/build/build.go, with its deferred function.
--   Build.MultiNode: the passes of Build over the exports of a target on several drivers, and toRepoOnly.
--   Build.Launch: the second loop of Build, which starts a goroutine for each driver of each target, on the
--     list of those that were started, behind the choice of the drivers.
--   Build.Targets: the goroutines of a target in Build of pkg/build/build.go, one event for each step of one of
--     them, on the phases of the drivers, the wait group's counter and the error group's first error.
--     Build.Targets.Finish is what the goroutine that waits does with the responses, the merge of the
--     manifests included; Build.Targets.Invariant, Replies, Answers and Liveness are about all runs.
--   Build.Loaders: newDockerLoader, newContainerdLoader and waitingWriter of the same file.
--   Platform: pkg/platformutil/parse.go.
--   Driver: the registry of pkg/driver/manager.go. Driver.Boot: Boot of pkg/driver/driver.go.
--   Kubernetes.Manifest: pkg/driver/kubernetes/manifest/manifest.go.
--   Kubernetes.Config: initDriverFromConfig of pkg/driver/kubernetes/factory.go.
--   Kubernetes.Making: New of the same file.
--   Kubernetes.Pods: pkg/driver/kubernetes/podchooser/podchooser.go.
--   Kubernetes.Creation: createConfigMap of pkg/driver/kubernetes/creation.go.
--   Kubernetes.Builder: createBuilder, getReplicaSets and getReplicaEvents of the same file, on a record of
--     the function's variables and the driver; Kubernetes.Builder.Passes has the loop, pass by pass.
--   Kubernetes.Waiting: wait and GetVersion of pkg/driver/kubernetes/driver.go.
--   Kubernetes.Bootstrap: Bootstrap of the same file, in the brackets of the progress.
--   Kubernetes.Operations: the other operations of that file.
--   Kubernetes.Credentials: pkg/driver/kubernetes/authprovider.go, on the secret that the provider keeps.
--   Kubernetes.Connection: kubeConn of pkg/driver/kubernetes/execconn/execconn.go, on its two flags and the
--     pipes that were closed.
--   Images: pkg/imagetools/inspect.go and create.go. Images.Combine has Combine, Images.Push the push.
--   Commands: listToMap, runBuild and the proxies of buildTargets of pkg/cmd/build.go, and the driver options
--     of runCreate of pkg/cmd/create.go. Commands.Build.Defaults has the default of the build command,
--     Commands.Creation runCreate, Commands.Builders rm.go, ls.go and version.go, and Commands.Context
--     Complete and Validate of build.go and ExactArgs of utils.go. Commands.Targets has the start of
--     buildTargets, up to the drivers that Build has chosen.
--   Progress: pkg/progress/progress.go, and addPrefix of pkg/progress/multiwriter.go. Progress.Reset is
--     reset.go, and Progress.Writers writer.go, fromreader.go and what WithPrefix of multiwriter.go passes on.
--     Progress.Multi has the goroutines of multiwriter.go, one event for each step of one of them.
--   Text: what the code uses of Go's strings, strconv and encoding/csv packages.
--   Prelude: Go's results with an error, maps as association lists, and code that changes a world.
--   Examples: tests, and each theorem below at a concrete input.
--
-- State is passed explicitly: a step takes the world and returns a result beside the world it leaves,
-- after an error too. A `range` over a map visits the pairs in the order of the association list, which
-- stands for the order that the runtime takes. A panic is an error with the format `panic`.
-- Numbers are natural numbers; the integers of the replica count are the type ℤ, cut to 32 bits where the
-- code converts. Texts are sequences of characters, which the order of UTF-8 texts agrees with;
-- their letters change case by the tables of Text.Unicode, and a string that is not UTF-8 has no model.
-- `Parse` of the platforms calls itself; its model runs on fuel two, since the parts of a split text hold
-- no comma. The retries of createConfigMap, of createBuilder and of Boot run on fuel, of which more than the
-- time until the deadline is enough; Prelude.Loops has their common form. All other loops are structural.
--
-- What is not under the repository's own code is a parameter: the platform type, the session providers,
-- the file system's and the cluster's answers, the hash ring, the random number, reference parsing.
-- The wait group and the error group of golang.org/x/sync are modelled as their documentation says: the first
-- error ends the group's context, and a goroutine tells the wait group before it returns. A run of a target's
-- goroutines is a list of steps in any order; it needs no fuel.
-- Not modelled: the goroutines of Build that wait for the progress; the channel between a progress writer and
-- the printer; the stream behind the exec connection; the declarations of the flags for the command line
-- library; the entry points, and the helpers of the integration tests.
pub mod Prelude
pub mod Text
pub mod Build
pub mod Platform
pub mod Driver
pub mod Kubernetes
pub mod Images
pub mod Commands
pub mod Progress
pub mod Examples
