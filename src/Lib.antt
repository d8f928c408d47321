-- ===== src/Lib.antt =====
-- Discoblocks: a verification library of its Go code.
--
-- Discoblocks attaches disks to Kubernetes pods as the custom resource DiskConfig asks, watches how
-- full they are, and grows or adds disks. A webhook admits DiskConfigs, another one gives new pods their
-- disks, reconcilers keep finalizers, status and the cache of nodes, a scheduler plugin keeps pods on
-- nodes where their disks can be attached, and WASM modules answer for each CSI driver.
--
-- Which file models which part (paths from the repository's root):
--   Kube/Objects        the fields of Kubernetes objects that the program uses, and DiskConfig with
--                       its spec (api/v1/diskconfig_types.go)
--   Kube/Quantity       resource.Quantity by its text; Cmp, Add and CmpInt64 are the parameter
--                       Quantities, and IsExact is their documented meaning
--   Kube/Exec           the monad of the handlers: calls recorded in a history, early returns and
--                       panics; Kube/Exec/Emits, Kube/Exec/Returns and Kube/Exec/After have one rule
--                       for each way to build an action, about the calls it makes, about what it
--                       comes to, and about that from a time on; Kube/Exec/Ordered has them about the
--                       order of the calls, and Kube/Exec/Reaches about a call that is made at last
--   Kube/Api            the calls to the API server, the drivers and the event service. The record
--                       Api is a parameter: every answer is a function of the calls made before it
--   Mutator             mutators/pod_mutator.go: Handle; Mutator/Claims makes the claim of one
--                       DiskConfig, Mutator/Patch the pod of the answer, and Mutator/Common has the
--                       responses and the record Library of what comes from libraries
--   Webhook             api/v1/diskconfig_webhook.go: validate is check_spec, check_update and the calls
--   Controllers/Conditions, Controllers/Pvc
--                       controllers/pvc_controller.go: Reconcile, which keeps one status condition
--                       for each claim
--   Controllers/Monitor, Controllers/Rounds
--                       controllers/pvc_controller.go: the decision of MonitorVolumes about one
--                       family of claims, and the loops around it, which start createPVC and resizePVC
--   Controllers/Loop    controllers/pvc_controller.go: the goroutine of SetupWithManager, which runs
--                       MonitorVolumes by a ticker, with the work that the rounds start
--   Controllers/Volumes, Controllers/Resize, Controllers/Create, Controllers/Waits
--                       controllers/pvc_controller.go: getVolumeAttachment and what resizePVC and
--                       createPVC share, resizePVC, createPVC, and the three loops in which it waits
--   Controllers/DiskConfigs
--                       controllers/diskconfig_controller.go: Reconcile, reconcileDelete, reconcileUpdate
--   Controllers/Jobs    controllers/job_controller.go: Reconcile
--   Controllers/Nodes   controllers/node_controller.go: the cache of node names by address
--   Controllers/Filters the event filters of the reconcilers
--   Scheduler           schedulers/pod.go: Filter
--   Drivers/Host        pkg/drivers/drivers.go: Driver over the WASM runtime and JSON, both parameters
--   Drivers/StorageOs, Drivers/Ebs, Drivers/Program
--                       drivers/*/main.go: what each export prints for an environment
--   Utils/Names, Utils/Labels, Utils/Hash, Utils/Mount
--                       pkg/utils/helpers.go and pkg/utils/hash.go
--   Utils/Capacity      pkg/utils/capacity.go: ParseCapacity
--   Utils/Semaphore     pkg/utils/semaphore.go: CreateSemaphore as steps of threads,
--                       with the loop of WaitForSemaphore in Semaphore/Wait
--   Utils/HostJobs      pkg/utils/kube.go: the sidecars and the host jobs over a YAML decoder
--   Utils/Decorate      pkg/utils/kube.go: PVCDecorator, NewStorageClass, IsOwnedByDaemonSet and
--                       GetTargetNodeByAffinity
--   Utils/Events        pkg/utils/event.go: the event service over ttlcache, a parameter
--   DiskInfo            pkg/diskinfo/diskinfo.go and pkg/diskinfo/telnet.go: Fetch over the text of a
--                       connection; DiskInfo/Proxy has pkg/diskinfo/frpc.go: getProxy
--   Startup             main.go: main and parseBoolEnv with the SetupWithManager functions;
--                       Startup/Load has the init functions of the packages, Startup/Settings the
--                       environment, and Startup/Calls the record System, the machine, a parameter
--   Text/Decimal        the decimal texts of fmt and strconv that these use
--   Base                shared names, tests on numbers, lists and association lists
--   Examples            concrete objects, a concrete server, and the theorems at them
--
-- How they interact: the webhook calls the driver through Api, as the scheduler does; Drivers/Verdict
-- says what the host of the repository's drivers can answer there, and Startup/Loaded which drivers there
-- are. Controllers/Loop runs the work of Controllers/Rounds by Controllers/Create and
-- Controllers/Resize. reconcile_delete removes the finalizer that Utils/Decorate puts on a claim, and
-- Controllers/Filters tests it.
--
-- Conventions: the functions of the source keep their names in snake case. A nil pointer is none, an
-- error is its text or an ApiError, and a panic is a result of its own. Texts are valid UTF-8. The
-- iteration order of a map and the order in which goroutines run are arguments; the goroutines of
-- reconcileDelete make one call each, so an interleaving of them is an order; those of MonitorVolumes run
-- one after another in an order, and what they start is collected and run by run_work. An int has 64 bits.
-- Every loop is structural recursion, or recursion on a well-founded order for decimal digits, but for
-- the three loops of createPVC that wait for an object: each has a round for every second of the cool
-- down and two more, since a round ends with a timer of a second and the deadline of all three is the
-- cool down. The clock is a function of the calls made; time passes within the calls and the timers.
--
-- Not modelled: logging, the increments of the metrics, the parsing of flags, the upstream scheduler
-- command, and generated code.
pub mod Base
pub mod Controllers
pub mod DiskInfo
pub mod Drivers
pub mod Examples
pub mod Kube
pub mod Mutator
pub mod Scheduler
pub mod Startup
pub mod Text
pub mod Utils
pub mod Webhook
