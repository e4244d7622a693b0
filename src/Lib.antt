-- ===== src/Lib.antt =====
-- GuardianOS-AI: a model of its web client, the React application under frontend/src.
--
-- The program. The client shows the reports of the detection engine and lets an analyst decide on the
-- recommended actions. A provider (frontend/src/context/GuardianContext.tsx) holds the shared state:
-- health, reports, events, and one error text for each kind of request. It fills the state over HTTP
-- (frontend/src/api/client.ts, frontend/src/api/guardian.ts), from polling timers, and from the frames
-- of a WebSocket (frontend/src/api/ws.ts). The pages (frontend/src/pages, frontend/src/components) are
-- functions of that state and of a little state of their own; they change the shared state only through
-- the provider's callbacks. Two more providers hold the sidebar and the theme.
--
-- The files.
--   Base       Boolean tests, array and string operations of the language, the stable sort
--   Platform   what the browser and the locale decide, as a record of functions; localStorage
--   Api        Types (frontend/src/api/types.ts), Client (frontend/src/api/client.ts), Endpoints
--              (frontend/src/api/guardian.ts: each exported function is a constructor of Call), Socket
--              (frontend/src/api/ws.ts: the variables of the closure are SocketState, each handler a
--              function to the new state and its effects)
--   Format     frontend/src/lib/format.ts
--   Context    frontend/src/context: Guardian (the provider: one function for each callback and each
--              settled promise), Sidebar (SidebarContext.tsx), Theme (ThemeContext.tsx)
--   Pages      what the memos of frontend/src/pages and of
--              frontend/src/components/charts/EventChart.tsx compute, and the options of the chart
--   View       what the components of frontend/src/pages, frontend/src/components and
--              frontend/src/layout return, as trees (View/Dom.antt); a handler is the request that it
--              makes; one module for each page, for the layout and for the shared components
--              View/Template has the components that no page uses yet (frontend/src/components/ui,
--              frontend/src/components/common); View/Document is what the effects of the modal
--              and of the dropdown do to the listeners and the style of the document
--   App        the routes of frontend/src/App.tsx, the screen at a path, and the client as a whole:
--              App/Client.antt has the clicks on the screen among the steps of the shared state, and
--              App/Conserved.antt the same with the history of the clicks and of the answered calls
--   Examples   concrete reports, events and histories
--
-- Interleavings. Api/Socket/Relation.antt has the events that the browser may deliver to one
-- subscription, in any order. Context/Guardian/Requests.antt has the provider among its requests: a
-- call is in flight until its answer comes, and the answers come in any order. A server is a parameter:
-- any answer may come, and where a list of reports must have each id once, IsHonest says so.
-- View/Detail/Busy.antt has the flags of a row and of a verdict among clicks, answers and unmountings.
--
-- Numbers. A timestamp is a whole number of microseconds and a score a whole number of millionths, on
-- the native natural numbers; the source has floating-point seconds and fractions. Formats of dates and
-- fractions, JSON texts, case folding and percent encoding are fields of Platform. No definition needs
-- fuel, except the digits of a number, which has one round for each unit of the number.
--
-- Packages. What react-router chooses for a path is a parameter, with its documented choice among static
-- patterns and a pattern with one parameter (App/Routing.antt); a concrete router in Examples/Routing.antt
-- makes this choice.
--
-- Not modelled: the Python backend, the packages (react, react-router, react-apexcharts, clsx), the
-- generated dashboard, icons and styles, the scrolling to the top on a change of the path, the mounting
-- of pages with their polling timers, of which only the periods are kept (a refresh may come at any
-- time), and the attribute `key`.
pub mod Base
pub mod Platform
pub mod Api
pub mod Format
pub mod Context
pub mod Pages
pub mod View
pub mod App
pub mod Examples
