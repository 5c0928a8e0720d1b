-- ===== src/Lib.antt =====
-- Kubeflow's metadata: the web frontend (frontend/src), a React program that lists artifacts and
-- executions of the metadata store and shows them in detail; the metadata service (service), which
-- keeps types, artifacts, executions and events in a store; the schema parser (schemaparser), which
-- registers types with the service when it starts; the watcher (watcher), which logs resources of a
-- cluster as artifacts; and the Python client (sdk/python), with which workflows log theirs.
--
-- The program's parts. `CustomTable` shows rows page by page; it keeps the page, the query and the
-- tokens of the pages, and asks its page for rows by `reload`. The list pages answer from the store:
-- they make rows of resources, and filter, order and group them with the functions of lib/Utils.tsx.
-- The details pages load one resource. All pages stand in a `RoutedPage`, which keeps the banner, the
-- dialog, the snackbar and the toolbar, and which the pages change by callbacks. The navigation at
-- the side keeps its state in the browser's storage. The Node server frontend/server/server.ts gives
-- the browser the program, and sends its requests on to the api and to the metadata store.
-- The service reads ids from names such as artifact_types/T/artifacts/7. The schema parser follows
-- references between schemas to find the properties of a type, and creates the type by the service.
-- The Python client puts executions and artifacts into the store, looks for a duplicate of an artifact
-- first, and marks both with their workspace, by which a workspace lists its artifacts.
--
-- The files:
--   Prelude        texts as lists of character codes, decimal numerals, `String.replace`, lists
--   Value, Json    what a table cell holds and what `JSON.parse` gives, with JavaScript's truth,
--                  comparison and `join`
--   Rows           `Row`, `Column` and `ExpandState` of components/CustomTable.tsx
--   Resources      artifacts and executions as the pages read them
--   Utils          lib/Utils.tsx: Filter (`rowFilterFn`), Compare (`rowCompareFn`), Group
--                  (`groupRows`, `getExpandedRow`), Messages
--   Table          components/CustomTable.tsx: State (`constructor`, `reload`), Events (the handlers
--                  that load), Selection, View (`render`); Schedule, the requests in flight with
--                  their replies in any order; Row is components/CustomTableRow.tsx
--   Shell          components/Router.tsx (Host, Router, Links), pages/Page.tsx (Page), the two
--                  SideNav.tsx and lib/LocalStorage.ts (SideNav, BuildInfo)
--   Lists          pages/ArtifactList.tsx and pages/ExecutionList.tsx; View is their `render`, with
--                  the table in it
--   Details        pages/ArtifactDetails.tsx and pages/ExecutionDetails.tsx; View is their `render`
--   Widgets        components/Banner.tsx, Toolbar.tsx, ResourceInfo.tsx, ArtifactLink.tsx and
--                  atoms/MD2Tabs.tsx, BusyButton.tsx; ModelInfo is components/ModelInfo.tsx, Atoms
--                  atoms/Separator.tsx and Input.tsx
--   Css            the functions of Css.tsx
--   Server         frontend/server/server.ts: its start, and Routes (the routes in their order);
--                  Matching holds what express documents of paths
--   Service        service/service.go and metadata_store.go: Names, Ids (ids in names), Types,
--                  Resources (artifacts and executions, by `Kind`), Events
--   Schemas        schemaparser/schemajson.go and schemaset.go; Loading (files, `AddSchema`), Register
--                  (register.go)
--   Watcher        watcher/handlers/metalogger.go
--   Sdk            sdk/python/kubeflow/metadata/metadata.py: artifacts and the store; Workspaces
--                  (`Workspace`), Logging (`Execution`)
--   Tests          runs on small inputs
--
-- State is passed explicitly. A handler with an `await` is two functions: what runs before it, with
-- the request and what is kept in between, and what runs when the reply has come, so that handlers
-- can overtake each other (Table/Events.antt). `setState` after an `await` takes effect at once; in an
-- event handler it takes effect when the handler is done. An exception is a missing result.
--
-- Browser built-ins (`decodeURIComponent`, `JSON.parse`, `toLowerCase`, `Array.sort`, dates), the
-- store's client, express and its proxy, @kubeflow/frontend and the rectangles of the page's
-- layout are arguments of the definitions that
-- use them. Numbers are natural, so that negative and fractional cell values are left out. The
-- offsets of a page change are the three that the code passes. The service's store, the client of the
-- watcher, Go's files and JSON, and gojsonschema are arguments too, and so are the store of the Python
-- client, how often a call to it is made again, and its JSON. The maps of Go and Python are
-- association lists. Floating numbers are left out.
--
-- Two things run on fuel: the writing of decimal numerals, with the number plus one, which is more than
-- its digits, and the two functions of the schema parser that follow references, whose fuel is how many
-- calls stand in one another; it is a variable of the theorems, since the code itself has no bound.
-- `Close` of the service is on fuel as well, as it never returns.
--
-- Not modelled: JSON objects of a filter whose own key `toString` keeps them from being written as
-- texts, style sheets and markup that shows no state, the logs, the wording of
-- errors, the main programs of server and watcher, which call libraries in a row, the Python client's
-- checks of types and its connection, and generated code (api).
pub mod Prelude
pub mod Value
pub mod Rows
pub mod Json
pub mod Utils
pub mod Table
pub mod Css
pub mod Server
pub mod Service
pub mod Schemas
pub mod Watcher
pub mod Sdk
pub mod Shell
pub mod Resources
pub mod Lists
pub mod Details
pub mod Widgets
pub mod Tests
