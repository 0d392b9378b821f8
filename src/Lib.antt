-- ===== src/Lib.antt =====
-- A verification library of the provider: who holds a hostname, which orders get a bid, what the
-- inventory service promises of its ports and IPs, how a lease is deployed, watched and torn down,
-- what becomes of an uploaded manifest, when a lease's funds are withdrawn, and who is let in to a
-- private lease.
--
-- The parts. The bid engine watches orders; for each it asks the inventory service for a
-- reservation and the private-market gate for leave, sends a bid, and gives back what it holds when
-- it does not win. The cluster's inventory service keeps the reservations, the free external ports
-- and the leased IPs; the hostname service keeps which deployment holds which hostname. A won lease
-- goes to the manifest manager of its deployment, which checks what the tenant uploads and
-- publishes it; where none comes, a watchdog closes the bid. The cluster service keeps a deployment
-- manager of each lease, which deploys what is published and tears it down, with a monitor that
-- closes a lease that stays unhealthy; the service gives the reservation back when the manager
-- ends. The balance checker looks at the escrow of each such lease and withdraws from it. The
-- operators of leased IPs and of hostnames keep the cluster's services and ingresses in step with
-- what the leases declare. The gateway's lease book keeps the private leases and the bearers that
-- may reach them.
--
-- The files, with the code each one models:
--   Balance                   provider/balance_checker.go: Check is doEscrowCheck, Checker its loop with the
--                             timers and the checks under way; Pending, Due, Withdrawn and Intime are
--                             about it
--   Base                      shared notation: tests, lists, texts as bytes, Go maps, results
--                             (Base.Loops: a select loop over events, and the rule for what it keeps;
--                             Base.Registry and Drains: a service's map beside the goroutines that are alive,
--                             and the wait for them at its end)
--   Bidengine.Ids             the identifiers of the chain's market module, and prices
--   Bidengine.Order           provider/bidengine/order.go: order.run as a state, events and effects, one
--                             function for each case of its select; Pipeline and Price run it, Cleanup
--                             is the code behind the loop, Settled what it owes, Stale the age of an
--                             existing bid
--   Bidengine.Should          provider/bidengine/order.go: order.shouldBid
--   Bidengine.Service         provider/bidengine/service.go: Fetcher is ordersFetcher, Monitors is run and
--                             processOrdersPage, with the monitors that are alive
--   Cluster.Capacity          provider/cluster/kube/operators/clients/inventory/inventory.go: Adjust, for
--                             any tryAdjust; Conserved is about it
--   Cluster.Capacity.Node,    the same file and interconnect.go: tryAdjust and what it calls; Takes and
--   Cluster.Capacity.Fit      Demand are about it
--   Cluster.Hostname          provider/cluster/hostname.go: the functions that end in Impl, with their
--                             loops; Reserve, Transfer: what they do to the map
--   Cluster.Hostname.Service  the same file: the service, its blocked names and its loop of requests
--   Cluster.Inventory         provider/cluster/inventory.go, reservation.go and
--                             util/endpoint_quantity.go, and the TEE types of types/v1beta3/types.go:
--                             the data and the counts
--   Cluster.Inventory.Loop    provider/cluster/inventory.go: handleRequest, reserve and each case of
--                             run's select; Ports, Ips, Requests and Ready are about it
--   Cluster.Manager           provider/cluster/manager.go: deploymentManager.run as a state, events and a
--                             log of what it starts; Phases is about the loop, Reclaim is
--                             checkLeaseActive and the joins of doTeardown
--   Cluster.Monitor           provider/cluster/monitor.go; Closing is about its loop
--   Cluster.Service           provider/cluster/service.go: run with its managers and those that are alive;
--                             Managed, Held and Drain are about it
--   Manifest.Proxy            provider/manifest/proxy_limits.go and parse.go
--   Manifest.Manager          provider/manifest/manager.go: manager.run and all that it calls; Answers and
--                             Waiting follow the uploads, Stored the manifests, Timer the stop timer
--   Manifest.Service          provider/manifest/service.go: run, with its managers and watchdogs; Kept and
--                             Guarded are about it
--   Manifest.Watchdog         provider/manifest/watchdog.go
--   Operator.IgnoreList       provider/operator/common/ignore_list.go; Prune and Flags are about it
--   Operator.Ip               provider/operator/ip/operator.go and the calls of
--                             cluster/kube/operators/clients/metallb/client.go; Keyed, Mirrors and Restart
--                             are about them
--   Operator.Hostnames        provider/operator/hostname/operator.go in its ingress mode; Locate is the
--                             search of the manifest, Routed is about the events
--   Pir.Hex, Pir.Envelope     provider/pirgate/envelope.go: sealing, opening, commitments and keys
--   Pir.Gate                  provider/pirgate/gate.go: PirAllocationAllowed and what it reads; Match is
--                             provider/pirgate/match.go
--   Pir.Book, Pir.Access      provider/gateway/pir/lease.go and access.go
--   Pir.Serve                 provider/gateway/pir/serve.go; Reopen puts its second write of the lease book
--                             among those of Pir.Book
--
-- Conventions. A text is a list of bytes; the functions on texts are Go's on ASCII text. A Go map
-- is an association list, and a loop over one runs in the list's order. A machine word is a number
-- with its wrap-around written out. A select is a sequence of events, any order of which may occur;
-- a value on a channel that is not waited on is passed over. Every loop of the code runs over a
-- list, so the definitions are structural; the traversal of orders runs on its turns, which are its
-- fuel. Logging and metrics are left out, but for one gauge of the cluster service.
--
-- Parameters. Code that is not in the repository is an argument: the AEAD, the hash and JSON, HTTP
-- and docker, the chain's answers, sdlutil.ComputeCommittedResources, the node's calculation of the
-- blocks that a balance lasts, the checks of a manifest's own type. The capacity of the cluster is
-- one too: Cluster.Inventory.Loop takes the inventory client's Adjust as a function of the
-- inventory and the reservation, with no assumption on it. The parsers of GPU and storage
-- attributes and the TEE runtime class, which the repository has, are arguments of tryAdjust too.
-- What is assumed of a parameter stands in the theorem.
--
-- Not modelled: the reports of the inventory service's status; the pricing and the attributes of
-- the bid engine; the drain of the manifest service's watchdogs at its end; doDeploy, whose result
-- is an event of the deployment manager; the Kubernetes clients, builders and operators but for the
-- inventory, the ignore list, the two operators' calls of passthroughs and ingresses; the gateway
-- mode, the HTTP endpoints and the watches of these operators; the gateways' HTTP and gRPC routing;
-- the commands. They are mostly Kubernetes and network I/O, or stand behind the interfaces above.
-- The Rust crates are another program, which the provider reaches over HTTP. Two details are left
-- out: a lease book file that holds JSON's null, on which AcceptBid panics, and the field
-- NCCLHCAPrefixes of the scheduler's parameters.
pub mod Balance
pub mod Base
pub mod Bidengine
pub mod Cluster
pub mod Manifest
pub mod Operator
pub mod Pir
