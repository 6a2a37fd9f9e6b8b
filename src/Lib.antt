-- ===== src/Lib.antt =====
-- rbacsync keeps RoleBindings and ClusterRoleBindings of a Kubernetes cluster in step with groups: a
-- config (RBACSyncConfig or ClusterRBACSyncConfig) lists bindings of groups to roles, groups are
-- looked up in the config itself and in a source outside (G Suite), and the controller writes one
-- binding object for each, and deletes the objects that no binding stands for any more.
--
-- The parts, with the files that model them:
--   Api              pkg/apis/rbacsync/v1alpha/types.go: configs, bindings, memberships.
--   Integers         Go's int64, which time.Duration is too: its bits, and the integer they stand for.
--   Errors           pkg/groups/grouper.go: the error variables, IsNotFound, IsUnknownMemberships.
--                    github.com/pkg/errors is the record `ErrorPackage`; what the code relies on of
--                    it is `IsLawful`: Cause sees through Wrap and Wrapf, and the four error
--                    variables are causes of their own and all different.
--   Groups           pkg/groups: the interface Grouper as a function with a world of its own,
--                    subjects.go (Groups.Subjects), groupmap.go (Groups.GroupMap), merged.go
--                    (Groups.Merged).
--   Gsuite           pkg/groups/gsuite/grouper.go, over the record `Directory` of the directory API,
--                    contexts, clock and regular expressions.
--   Kube             the Kubernetes API as the controller uses it: the record `Kube`, and in
--                    Kube.Server what the theorems assume of the server.
--   Controller       pkg/controller/controller.go: Resolve is resolveGroups, Bindings the loop over
--                    the bindings with the createOrUpdate functions, Cleanup the deletes and the
--                    handlers, Queue enqueue, the pollers, makeWorker and the functions that the
--                    workers run, Events the handlers that NewController registers, Run the function
--                    of that name, System the goroutines as one machine. Objects is what a handler
--                    leaves on the server: Desired says what the bindings ask for, Policy what the
--                    API server permits, Settled what a handler makes of both, Granted where an
--                    object can come from. Effects are the events, gauges and logged errors; Util is
--                    pkg/controller/util.go.
--   Listers          pkg/generated/listers/rbacsync/v1alpha: List and Get of both kinds of configs.
--   Informers        pkg/generated/informers/externalversions/factory.go: the options, Start,
--                    InformerFor and WaitForCacheSync. The lock makes each operation one step.
--                    Informers.Configs has the informers of both kinds of configs, of rbacsync/v1alpha
--                    there, and ForResource of generic.go; Informers.Interfaces the way from the
--                    factory to them.
--   DeepCopy         pkg/apis/rbacsync/v1alpha/zz_generated.deepcopy.go over a heap of arrays: a slice
--                    is nil or points at its array, so that what a copy shares can be told.
--   Clients          pkg/generated/clientset/versioned/typed/rbacsync/v1alpha: the nine calls of the
--                    client of each kind of config as the requests that they build, and in
--                    Clients.Fakes those of its fake as actions. The builder of requests and the
--                    tracker of client-go are the records `Rest` and `Fake`; Clients.Operations
--                    says what a request and an action ask the API server for. The constructors:
--                    Clients.Sets is clientset/versioned/clientset.go, Clients.RbacSyncV1alpha
--                    rbacsync_client.go, over the rest.Configs in memory (Clients.Connections), so
--                    that a write to the config of the caller can be told from one to a copy;
--                    Clients.Fakes.Sets is the set of the fakes.
--   Command          cmd/rbacsync/main.go: homeDir, resolveConfig, dumpYAML and the choice of the
--                    grouper; Startup is the flags and main, Signals the signal handler as a state
--                    machine.
--   Tests            the theorems at concrete data.
--
-- State is passed explicitly: a world goes through each definition, and comes back in its result.
-- handleConfig and handleClusterConfig are the same code for two kinds of objects, so they are one
-- definition that takes a `Scope`, and each theorem speaks of both. A nil error is `none` of an
-- Option; a result with an error is a `Result`. Maps are association lists with the order in which
-- Go walks through them as the parameter `MapOrder`, of which theorems assume only that it is a
-- permutation (`IsOrder`). Every loop runs over a finite list, so no other definition needs fuel
-- than advance_all of Command.Signals, to which four steps are enough: the items of a queue and the
-- pages of a listing are lists as well.
--
-- Outside of DeepCopy, the mutable objects of the source are not shared between the parts once
-- they are returned: copies of slices and subjects are equal values there. Info and warning logs
-- are left out. A grouper, a lister or the server may fail in any way; a theorem that needs them
-- not to fail says so. Not modelled: cmd/rbacsync/prometheus.go, a copy of code of Kubernetes;
-- the registration of types and metrics, which are calls of libraries in functions `init`; the
-- fields of the Controller that NewController fills with what it is given; the parsing of flags
-- and the HTTP server.
pub mod Prelude
pub mod Integers
pub mod Api
pub mod Errors
pub mod Groups
pub mod Gsuite
pub mod Kube
pub mod Controller
pub mod Listers
pub mod Informers
pub mod DeepCopy
pub mod Clients
pub mod Command
mod Tests
