-- ===== src/Lib.antt =====
-- The frontend of the migration safety engine (frontend/src): the client of the engine's HTTP interface,
-- the reader of its metrics, and the state behind the pages.
--
-- Parts, and the files that model them:
--
-- - Types (frontend/src/types/index.ts): the states of a migration with their tables, and the records that
--   the server sends. `number` is a type parameter, an optional field is an `Option`.
-- - Prometheus (frontend/src/lib/prometheus.ts): Floats is the record of the operations on numbers that the
--   file applies; Labels, Parse and Query are its functions in the order of the source. Print and Document
--   say what a text of the exposition format is, independently of the parser.
-- - Api (frontend/src/lib/api.ts): Effects is the world that `ApiClient` acts on (its token, the entry of
--   the local storage, the requests sent), Uri the conversions of JavaScript that paths and messages are
--   built with, Client and Calls the methods. The answer of a `fetch` is an argument: any response or
--   failure. Session runs the calls of a page one after the other; Sent has the requests of the
--   methods, written out.
-- - Toast (frontend/src/components/Toast.tsx): Provider is the state with its timers, Schedule the events in
--   any order.
-- - Dashboard (frontend/src/pages/Dashboard.tsx): Pages and Rows are the computed values, Events the state
--   and the handlers. A handler that awaits the server is two functions, so that other events can come
--   between. IdSet is the `Set` of selected ids, and Refinement the same page with an abstract set. Requests has
--   the handlers of a deletion and of the demo with what they send and show; Deletion and Errors are about
--   them. Table is what the page shows, RowEvents what a row does with a click or a key, and Screen is about
--   the table and its pages. Counter is the animation of a number, from frame to frame; times are whole
--   milliseconds.
-- - NewPlan (frontend/src/pages/NewPlan.tsx): Steps reads the canary steps with the language's `parseInt`,
--   Form has the fields, their edits and the plan that they build, Page the handlers, which call `Api` and
--   `Toast`. Page keeps the form of the first rendering, which the memoized key handler reads, and runs a
--   handler that awaits the server to its end. Flight cuts these handlers at their `await`: calls are under way,
--   and events and answers come in any order; InFlight, Races and Drops are about it. View is what the page shows of
--   its fields, which Ticked compares with the plan. The initial JSON text is that
--   of DEMO_PLAN (lib/constants.ts).
-- - Poll is the effect with which Dashboard and Detail ask the server again, with the intervals of the browser.
-- - Detail (frontend/src/pages/MigrationDetail.tsx): View is the state with what the answers change, Abort the
--   handler of the abort button with its requests. Flow, Tables and Safety are what the page shows: the
--   progress and the flow of states, the schema before and after, and the safety data with its interval.
-- - Drift (frontend/src/pages/DriftScanPage.tsx): Scan is the state with its handlers, Report what is shown of it.
-- - Panels (frontend/src/components): Parity, Health and Cost are DataParityPanel.tsx, ExecutiveHealthPanel.tsx
--   and CostEfficiencyPanel.tsx, which show a finished migration, with Export about the file that the last one
--   writes, Cards about the cards of the three and Details about the buttons of the last one; Metrics is
--   MetricsPanel.tsx, which shows what Prometheus read, and Status SystemStatusPanel.tsx. Widgets is
--   ErrorBoundary.tsx and ConfirmDialog.tsx.
-- - Chart (frontend/src/components/DisasterAvertedChart.tsx): Drawing is the list of the calls on the canvas, Panel
--   what stands around it. Spark has the sparklines and the gauge of Dashboard.tsx, Series the coordinates of
--   the charts of MetricsPanel.tsx. Reals is the record of the operations on coordinates, with what is used of
--   the order of the finite ones.
-- - Graph (frontend/src/components/StateMachineGraph.tsx): Drawing is what is drawn for a state, Marks what
--   stands out in it.
-- - Shell (frontend/src/App.tsx, pages/LoginPage.tsx, components/OnboardingWizard.tsx): App is who is logged in,
--   Session puts logins, logouts and the calls of the pages in any order, Tour is the tour for new users,
--   Terminal the demo that the landing page plays, with its renderings before and after their effects, and
--   TerminalLines its texts, Landing its counter and its list of checks. The random
--   amounts of the counter are arguments, from 100 to 300.
-- - Prelude and Dict hold what the parts share: JavaScript strings as lists of UTF-16 code units with their
--   methods, array methods, and dictionaries in the order of insertion.
--
-- `Api` sends what `Dashboard` asks for, and `Toast` shows the outcome; the pages read the records of `Types`.
--
-- Loops are recursions on lists, of events, ticks or frames where the code waits for them. The decimal
-- printer of `Api.Uri` takes the number plus one as fuel, which is more than it has digits.
--
-- Not modelled: markup, styles and animation; the Go server, whose answers are arbitrary; `toLowerCase`,
-- which is an argument of what uses it, as are the floating-point operations, JSON and `atob`. State names
-- that are array indices or properties of `Object.prototype` are outside `getTransitions`, and no other
-- page writes to the storage.
pub mod Prelude
pub mod Dict
pub mod IdSet
pub mod Types
pub mod Prometheus
pub mod Api
pub mod Toast
pub mod Dashboard
pub mod NewPlan
pub mod Poll
pub mod Detail
pub mod Shell
pub mod Drift
pub mod Panels
pub mod Graph
pub mod Chart
