-- ===== src/Lib.antt =====
-- Verification library of the Karpenter provider for Rafay: a Karpenter cloud provider that asks a
-- broker for nodes, and the controllers that keep NodeClaims, nodes and headroom in step with it.
--
-- Parts and files
--   Prelude       Boolean tests, lists, texts as Go's `strings` treats them, Go maps (Dict)
--   Kube          the fields of NodeClaims and Nodes that the program reads or writes
--   Rafay/Batcher pkg/rafay/batcher.go: the NodeBatcher. Its struct is the record NodeBatcher; each
--                 method is a function (Enqueue: enqueueItem, resolvePending; Send: collectBatch,
--                 sendBatch, registerAndAck, ResumeAddBatch; Poll: pollAll, pollBatch). System puts
--                 the goroutines together: an Action is what one of them does between two lock
--                 operations, and `run` takes any sequence of actions; Sequential: the steps
--                 of the sender for one batch.
--   Rafay/BrokerClient pkg/rafay/brokerclient.go and batch_stream.go: the cached connection, calls
--                 with and without a retry, and what the stream operations read of an answer
--   Rafay/Delivery the NodeBatcher over the BrokerClient: the sends, Cancel and pollBatch with the calls
--                 of the client that they make
--   Rafay/ProviderId  pkg/rafay/providerid.go: building and parsing provider IDs
--   CloudProvider pkg/cloudprovider/cloudprovider.go: the search for a joined node, Delete, Get,
--                 List and the failure handler of the batcher; Instances: the instance types of a
--                 RafayNodeClass (pkg/apis/v1alpha1/rafaynodeclass.go) and their order; Create: the
--                 choice of a type, what Create has done before it waits (create_start) and what it
--                 returns then (create_finish), and GetInstanceTypes; Inventory: Get and List over the
--                 Client of pkg/rafay/client.go, with the capacities
--   Controllers/NodeProviderId  pkg/controllers/nodeproviderid/controller.go
--   Controllers/NodeAdoption    pkg/controllers/nodeadoption/controller.go
--   Controllers/Headroom        pkg/controllers/headroom/config.go and controller.go: Config, Replicas,
--                 Priority, Sync (Reconcile), Template (the Deployment and its pod template), Watches
--   Controllers/RafayNodeClass  pkg/controllers/rafaynodeclass/controller.go
--   Controllers/BatchResume     pkg/controllers/batchresume/controller.go
--   Controllers/NodeConfig      pkg/controllers/nodeconfig/controller.go: sync, and in Loop the loop
--                 of Start, over a list of the passes that it meets
--   Controllers/Fleet           the stored NodeClaims under Create and the passes of NodeProviderId and
--                 NodeAdoption, with Karpenter's own part as steps
--   Broker        cmd/controller/main.go: the configuration from the environment; the certificates of
--                 pkg/broker/credentials.go; dialBroker of pkg/rafay/brokerclient.go
--   Wiring        cmd/controller/main.go: the start of the batcher, and the controllers
--   Tests         concrete runs, and the theorems at them
--
-- How the parts interact: Create and Delete enqueue an item and wait on its channel; the sender
-- collects items into batches and sends them; the poller asks for the state of the batches that were
-- acknowledged; Delete reports a node as gone once the poller has recorded its removal; the failure
-- handler removes the NodeClaims of failed adds. At a start of the process the batch resume hands the
-- batcher the batches that the NodeClaims name. The RafayNodeClass controller calls a class Ready, and
-- Create makes instance types of its spec. The controllers share the API server's objects: the
-- provider ID of a NodeClaim says which node is taken.
--
-- Correspondence. A channel is its number, and what was written to channels is the list `delivered`.
-- A Go map is an association list with lookup, insert and erase; times are seconds. A step takes what
-- the broker or the API server answers as an argument, errors included, so a theorem holds for every
-- answer. Lists of objects are what the API server or the cache returns; a list may be stale. Log
-- messages are left out. A slice is copied where the program may share its array: pollBatch compacts the
-- items of a batch in place, in the array that the sender may still range over. A response of the broker
-- has one of its fields set; the program tests them in the order accepted, rejected.
--
-- Bounds: the loops of the program run over lists and are structural recursion, so no function has
-- fuel; the endless loop of the NodeConfigController runs over the passes that it meets. Durations of
-- that controller are nanoseconds. Sums of allocatable resources and replica counts are natural
-- numbers; the program's int64 holds them below 2 ^ 63. The replica count is at most 5000.
--
-- Parameters: Karpenter's scheduling compatibility, instance types and the node class label key in
-- NodeAdoption/Pass.World; quantities and prices in CloudProvider/Instances.Amounts, the node classes
-- and Karpenter's tests of a NodeClaim in CloudProvider/Create.World; quantities, float arithmetic and
-- YAML in Headroom.Numbers, the answers on its PriorityClass in Headroom/Priority; the YAML decoder of
-- NodeConfig; the order in which Go visits a map in BatchResume; files, X.509, strings.EqualFold,
-- strconv.Atoi and the UUID in Broker; dialling, the code of an error and the function to call in
-- BrokerClient; what a stream yields for a request in Rafay/Delivery; the texts of quantities in
-- CloudProvider/Inventory.Texts.
--
-- Not modelled: controllerutil.CreateOrUpdate itself, most watches of the controllers other than
-- headroom, the options of the gRPC library (pkg/broker/conn.go), the scheme in pkg/operator, and the
-- generated code of pkg/apis.
pub mod Prelude
pub mod Rafay
pub mod Broker
pub mod Wiring
pub mod Kube
pub mod CloudProvider
pub mod Controllers
pub mod Tests
