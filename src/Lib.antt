-- ===== src/Lib.antt =====
-- The TypeScript frontend of Advanced Automation Manager (frontend/src): a console that registers
-- Ansible Automation Platform and Automation Orchestrator environments, shows what the backend
-- collected from them, and sends policies and actions. The frontend keeps its state in React
-- components; the modelled code is the pure part that these call and the state changes of their
-- handlers, each as a function from a state to the next.
--
-- Parts, files and sources. Names are the source's in snake_case: `explain_service_health` is
-- `explainServiceHealth`.
--   Prelude (Tests, Lists, Result, Action, Int, Dict, Text and its children): what the sources use of
--     the JavaScript library: `trim`, `split`, `join`, `parseInt`, `String`, `encodeURIComponent`,
--     objects as association lists, `throw` as a `Result`, and the handlers of the pages as actions
--     on a state, with `try`, `catch` and `finally`.
--   Value, Types: JSON values, and the records of frontend/src/types.ts.
--   Utils: frontend/src/utils.ts, labels and the kind of an environment.
--   Capabilities (Fields, Roundtrip, Extras, Saving, Describe): frontend/src/capabilities.ts, the
--     profile read from the stored object and written back.
--   Monitoring (Services, Points, Order, Snapshots, Errors, Findings): frontend/src/monitoring.ts,
--     from a snapshot's metrics to the findings of the fleet. Findings calls the other five.
--   Api (Endpoints): `request` of frontend/src/api.ts, and the method and path of each call.
--   Forms.Environment (Slug, Submit, Registration): frontend/src/components/environment-form.tsx.
--     The state of the form, its initial value from an environment (which reads the capabilities),
--     the request of `handleSubmit` (which builds them), and the steps of a registration as a
--     relation of events.
--   Forms.Policy: frontend/src/components/policy-form.tsx and what frontend/src/pages/policies.tsx
--     reads of its rules.
--   Pages (Fleet, Dashboard, Overview, Coverage, Refresh, Resources, Shell, Alerts): the computations of
--     monitoring.tsx, dashboard.tsx, settings.tsx and environment-detail.tsx under
--     frontend/src/pages, and of the frame around the pages. Fleet and Dashboard use the snapshots
--     of Monitoring.
--   Pages.Environment (Idle, Saving), Pages.Policies (Handlers), Pages.Environments.Page,
--     Pages.Jobs.Page, Pages.Preferences, Pages.Inventory, Pages.Profile, Pages.Access (Assigning,
--     Providers): the states and the handlers of environment-detail.tsx, policies.tsx,
--     environments.tsx, jobs.tsx, settings.tsx, search.tsx, account.tsx and access.tsx. A handler is
--     a function of the API's answers and the state; Saving joins the environment's page with its
--     form.
--   Pages.Jobs.Answers (Current), Pages.Activity (Fresh): jobs.tsx and activity.tsx with the requests
--     that are under way, which settle in any order; in activity.tsx an older request is aborted, and
--     in jobs.tsx a job that is canceled is followed by a call for the filters of its click.
--   Pages.Session: frontend/src/auth.tsx, pages/login.tsx and the routes of frontend/src/app.tsx.
--   Pages.Topology (Built, Keyed, Covers, Drawing): topology.tsx, from the nodes and edges to the
--     cards. Nodes are objects that lists share, so the tree is a store of objects by id.
--   Pages.Charts (Days, Tally): frontend/src/components/charts.tsx.
--
-- Bounds. Every function is total by structural recursion, but for the digits of a number, which
-- are written on fuel that is one more than the number, and the drawing of the topology, whose fuel
-- bounds the nesting of the cards: fuel above the ranks of the nodes is enough, where a rank falls
-- along each edge. A string is its list of code points, so lengths and slices count code points and
-- no lone surrogate occurs. A finite number is
-- an integer: fractions, -0 and the rounding above 2^53 do not occur. An object is its list of
-- entries in the order of insertion; keys like array indices, which JavaScript moves to the front,
-- are not moved, and inherited properties are seen only where the health breakdown asks with `in`.
-- A handler runs from its start to its end before the next event, but in Pages.Jobs.Answers and
-- Pages.Activity. What `Promise.all` gave is one argument, and
-- what `Promise.allSettled` gave one for each of its results.
--
-- Parameters, which stand for the host: `toLowerCase`, `localeCompare`, dates and their printing,
-- `JSON.parse` and `JSON.stringify`, `String` of a value in an error's list, and the API's answers.
-- `sort` is a stable insertion sort.
--
-- Not modelled: the markup of the components, the loading effects of the monitoring and topology
-- pages, the lengths of arcs and bars in the charts, the redirections between pages behind
-- the sign-in, the router's matching of a path beyond equality (a "/" at its end, the case of letters),
-- and the backend in Python.
pub mod Prelude
pub mod Value
pub mod Types
pub mod Utils
pub mod Capabilities
pub mod Api
pub mod Monitoring
pub mod Forms
pub mod Pages
