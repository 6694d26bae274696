-- ===== src/Lib.antt =====
-- observability-ui-operator: a Kubernetes operator for the observability pages of the OpenShift
-- console. Two controllers reconcile two custom resources. The hub controller creates the resources
-- of one console plugin, the hub; the plugin controller does so for each plugin resource, and is
-- meant to unregister the plugin when its resource is deleted.
--
-- The parts, and the files that model them:
--   api/v1alpha1                        Api: the custom resources, as records; Api/Objects: the
--                                       Kubernetes objects that the program creates; Api/Scheme: the
--                                       registration of the types; Api/DeepCopy and
--                                       Api/DeepCopy/Copies: the generated copies.
--   internal/subreconciler              Subreconciler: the results of a sub-reconciler, the tests on
--                                       them, and the loop that ends `Reconcile` of both controllers.
--   internal/observability-ui/common    Common: constants, labels and names.
--   internal/consoleplugin              ConsolePlugin: from a custom resource to a builder;
--                                       ConsolePlugin/Objects: from a builder to its objects.
--   controllers/operator                Operator (reading, status and deletion), Operator/Resources
--                                       (reconcileServiceAccount to reconcileConsolePlugin),
--                                       Operator/Register (registerPluginInConsole) and
--                                       Operator/Reconcile (Reconcile).
--   controllers/plugins                 Plugins, Plugins/Resources, Plugins/Register, Plugins/Delete
--                                       (handleDelete and the finalizer operations) and
--                                       Plugins/Reconcile.
--   both controllers                    Patches: the JSON patches of the console.
--                                       Patches/Laws says what they do to the list of plugins,
--                                       and Patches/Stale what the one that removes a plugin
--                                       does after the list has changed.
--   main.go                             Main: init and main; Main/Setup: what they call, and the
--                                       SetupWithManager functions of both controllers; Main/Passes
--                                       and Main/Laws: the order of the calls.
--   both controllers together           Interleaving: their runs at the same time, as sequences of
--                                       sub-reconcilers; Interleaving/Both: whole runs, one after
--                                       the other in either order; Interleaving/Overtaken: a
--                                       registration in the middle of the other one.
--   config/rbac/role.yaml               Access: the role of the manager, and the one that the RBAC
--                                       markers of both controllers describe; Access/Asking: what
--                                       each call asks of the API server; Access/Laws and
--                                       Access/Marked: what the two roles permit of it.
--
-- Base holds what the files share, Attempt a value or an error, and Body the sub-reconcilers'
-- early returns: a body reads and changes the state of the world, and goes on or returns.
--
-- The code around the controllers is a parameter: a `Client` (Client) has a state and a function
-- for each call that the program makes of the Kubernetes client, of the console's client and of
-- the libraries on conditions, finalizers and owner references. A call takes a state and leaves
-- one, so that it may fail at any time, and what other actors do between two calls is part of it.
-- `r.Get` fills the whole object that it is given, as the cached client of the manager does.
-- Trace wraps a client in one that keeps a log of the writes. Reliable says what the program
-- relies on of a cluster in which every call is answered and nobody else writes: documented
-- behaviour of the Kubernetes API, of JSON patches and of the library functions on conditions and
-- owner references. Trace/Confirmed wraps a client in one that notes the kinds of the objects
-- that it has found or created, with which Operator/Reconcile/Success and
-- Plugins/Reconcile/Success speak of runs in which any calls may fail. Trace/Faults wraps a
-- client in one of which given calls fail, and Body/Fated, Subreconciler/Fated, Operator/Fated
-- and Plugins/Fated say that it does what the wrapped client does once no call is left to fail;
-- Operator/Converge/Faults and Plugins/Converge/Faults use them, and
-- Operator/Converge/Worker does so for the worker of controller-runtime (Trace/Worker), which runs a
-- controller again until a run is the last. Trace/Kept says that such a client keeps what the wrapped
-- one keeps. Reliable/Ensures says what a
-- sub-reconciler for a resource does there; Reliable/Stages and Reliable/Registered carry runs of
-- either controller there; Operator/Converge and Plugins/Converge are about the two controllers
-- in such a cluster. What main.go calls of its libraries is a parameter too, a `Runtime`
-- (Main/Setup), whose calls may fail at any point.
--
-- Interleaving/Calls says which properties of the state every call keeps, and Interleaving/Hub and
-- Interleaving/Plugins that the sub-reconcilers keep them then; Access, Trace and Interleaving/Apart,
-- which says what one controller leaves of the other's, rest on them. Interleaving/Listed has the
-- list of the console's plugins up to order, as a quotient.
--
-- Interleaving takes a sub-reconciler as one step, so that nobody writes between the read and the
-- write of one of them. Interleaving/Overtaken and Patches/Stale are about what may happen
-- otherwise: the first runs registerPluginInConsole of one controller over a client, `overtaken`,
-- that lets the other controller run after the read of the console. A step of a user changes
-- custom resources. Interleaving/Laws says what follows for any sequence of steps. The garbage
-- collector of the cluster, which removes the objects of a deleted owner, is not one of the steps.
--
-- The deep copies work on a heap (Api/Heap), a list of the arrays and maps that the structs refer
-- to by address; the copies of Kubernetes' own types are a parameter, a `Library` (Api/DeepCopy),
-- of which CopiesDeeply says what is documented.
--
-- The theorems stand in modules under the part that they are about; Subreconciler/Laws,
-- Subreconciler/Keeps, Subreconciler/Success, Body/Laws and Trace/Order carry what the proofs on
-- both controllers share. Tests has clients in memory, one of them (Tests/Store) shown to be
-- reliable, runs of both reconcilers, and the theorems at concrete inputs.
--
-- Bounds. `decimal`, for `%d`, prints with one round of fuel more than the number, and a number
-- has no more digits than that. The loops over sub-reconcilers, services and plugins are
-- structural. An `int32` is an integer of which the program only copies and prints the value.
--
-- Not modelled: logging; the options of the logger in main.go; the vendored libraries, but for the
-- test that a result is empty and the two functions on slices that the program calls.
pub mod Base
pub mod Api
pub mod Attempt
pub mod Subreconciler
pub mod Body
pub mod Client
pub mod Common
pub mod ConsolePlugin
pub mod Operator
pub mod Main
pub mod Patches
pub mod Plugins
pub mod Trace
pub mod Reliable
mod Tests
pub mod Interleaving
pub mod Access
