-- ===== src/Lib.antt =====
-- The Mailu operator: a Kubernetes operator that keeps the domains, users and aliases of a Mailu mail server
-- as custom resources ask for them.
--
-- The program. cmd/main.go starts one reconciler for each kind of resource (internal/controller/
-- domain_controller.go, alias_controller.go, user_controller.go). `Reconcile` is called with a resource. It
-- adds a finalizer to a live resource, makes an API client at its first call, looks the object up in Mailu,
-- and then creates, updates or deletes it; when a resource is being deleted and no requeue is asked for, it
-- removes the finalizer. What it changed in the resource is patched by a deferred function. The API client
-- (pkg/mailu/client.go) builds one HTTP request for each operation and sends it. The resources have their
-- types in api/v1alpha1.
--
-- Files.
--   Common, Common/*: lists, options, integers, results and state passing. `int` is an unbounded integer
--     with the range of Go's 64 bits as a test where a document is read.
--   Json, Json/*: documents of encoding/json as ordered members, the tests for omitted members, the reading
--     of a field by its type, and equality of documents.
--   Http: requests, answers and the constants of net/http; the record `Net` holds what is not in the repository:
--     the HTTP client, URL parsing and resolution, the style of path parameters.
--   Api/Domain, Api/Alias, Api/User: the structs of pkg/mailu/client.go, `marshal` by their JSON tags and
--     `unmarshal`; */RoundTrip: one after the other. Api/User/Documents: users with the same document.
--     Api/Dates: the dates of oapi-codegen, a parameter.
--   Client: `NewClient`, its options and `applyEditors`; Client/Requests: the `New*Request` functions;
--     Client/Calls: the methods of `Client`. `perform` is the body that those methods share. The proofs
--     are in Client/Construction, Client/Sending and Client/Endpoints.
--   Resource, Resource/Specs: the resources of api/v1alpha1, with slices as values or in memory, and the record
--     `Cluster` of what is not in the repository: controllerutil, meta.SetStatusCondition and the two patches.
--   Memory: arrays by their addresses, with slices that point to them; Memory/DeepCopy, Memory/DeepCopy/*: the
--     functions of api/v1alpha1/zz_generated.deepcopy.go by their names, over that memory. Memory/Copies, Memory/Parts and
--     Memory/Lists have the laws of copies, and Memory/Independence/* what they give for each kind.
--   Controller: results, the reconciler's own state, `ensure_client` (the client made at first use)
--     and `apply_patches` (the deferred function).
--   Controller/Reply: the `switch` over the status code that ends each of `getX`, `createX`, `updateX` and
--     `deleteX`; Controller/Replies: the tables of status codes.
--   Controller/Domain, Controller/Alias, Controller/User: the methods of the reconcilers, by their names:
--     reconcile is `Reconcile`, reconcile_steps is `reconcile`, and proceed and decide are its parts after the
--     client is made and after the lookup. Controller/User/FromSpec is `userFromSpec`, and
--     Controller/User/Password is `getRawUserPassword` and `getUserPassword`.
--   Controller/Flow: one reconciler over an abstract kind of object, of which the three are instances; it carries
--     the proofs that they share. Controller/Flow/Kinds: the three kinds. Controller/Flow/*: the proofs about that reconciler, which
--     Controller/Finalizer, Status, Results, Updates, Convergence and Creation carry over to the three.
--     Controller/Sequel/*: two reconciliations in a row.
--   Controller/Mailu, Controller/Mailu/*: what pkg/mailu/openapi.yaml promises of a server that serves every
--     request, as an interface over the calls of the client; */Settling: sequences of reconciliations of any length
--     against it, by Controller/Flow/Served and Controller/Flow/Untouched for the abstract reconciler.
--   Controller/Authorized, Controller/Authorized/*: what the requests of the three reconcilers carry.
--   Start: the settings that cmd/main.go takes from flags and environment, and the reconcilers made of them.
--     Start/Main: `main` from the parsed flags on, with the calls of controller-runtime as the record `Runtime`;
--     Start/Exit and Start/Protocols have the proofs.
--   Tests/*: a scripted world, a small Mailu server that runs, a small memory, and the theorems at concrete
--     resources and answers.
--
-- State. An operation takes and returns a context: the world (network and cluster), the reconciler with its
-- client, and the resource in memory, which the Go code changes through a pointer. The original that the
-- patches compare with is the resource as `Reconcile` got it.
--
-- Bounds. `itoa` divides by ten with the number itself as fuel, which is more than its digits. Nothing else
-- needs fuel: all loops are over lists. The number of reconciliations until a resource is settled is given by
-- its theorem.
--
-- Not modelled: the parsing of flags, the scheme and the inner workings of the manager in cmd/main.go, the
-- registration of types, logging and contexts, the unused DomainDetails, tests and manifests. Two concurrent
-- reconciliations of one reconciler share its client in Go; here they run one after the other.

mod Common
pub mod Json
pub mod Api
pub mod Http
pub mod Client
pub mod Resource
pub mod Controller
pub mod Start
pub mod Memory
mod Tests
