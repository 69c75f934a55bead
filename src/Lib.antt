-- ===== src/Lib.antt =====
-- Verification of the blockchain explorer: its web client, blockchain-explorer/client, and of its
-- server, blockchain-explorer/app, the users and the copy of the ledger.
--
-- The program. The client keeps one redux store with four parts: `auth`, `charts`, `tables` and
-- `theme`, where `charts` and `tables` are combined of eleven slices each. A component calls an
-- operation, which sends a request with the token of the local storage, and when the reply comes
-- dispatches an action. The reducers make the new state of the action, and the components read
-- the state through selectors. The login and logout operations also set and remove the token.
--
-- The server keeps a table of users, whose passwords are hashed with a salt, and copies the blocks
-- of the channels into a database: `processBlockEvent` for a block that arrives, and `syncBlocks`
-- for the blocks that are missing.
--
-- Paths below are relative to blockchain-explorer/client/src, those of Server to
-- blockchain-explorer/app.
--
--   Common        shared names, tests and case lemmas
--   Js            JavaScript values, objects and exceptions, with the spread and the property access
--                 that the code uses
--   Redux         the package redux as a record of functions with laws: combineReducers, dispatch,
--                 createStore. It is an argument of everything that uses the store
--   Store.Auth, Store.Charts, Store.Tables, Store.Theme
--                 state/redux/{auth,charts,tables,theme}: types.js, actions.js, reducers.js and
--                 selectors.js. `block_per_hour_reducer` is blockPerHourReducer, and so on
--   Store.Root    state/redux/index.js: the root reducer and the names of its 24 slices
--   Session       state/Auth.js, and the monad of code that reads and changes the world: the store
--                 and the token. Session.Configure is state/store.js
--   Request       services/request.js
--   Thunk         an operation: a request, and what happens when the reply comes
--   Operations    state/redux/{charts,tables,auth}/operations.js, one definition for each operation.
--                 The handler that the operations repeat is `settle_with` with `report_or`
--   Client        the events of a running client in any order, and what holds after all of them
--   Components    components with a state of their own: Components.Register is
--                 components/Register/Register.js, Components.Login components/Login/Login.js, and
--                 Components.Blocks components/Lists/Blocks.js. Calls of `setState` in a handler
--                 are applied together after it
--   Server.Users  platform/fabric/service/UserService.ts with persistence/fabric/UserDataService.ts and
--                 the two getters of FabricConfig.ts that it calls. Model is the table of users of
--                 the package sequelize as a record of functions with laws; the hash of bcrypt and
--                 the salt that is drawn are arguments
--   Server.Ledger the tables of the database as lists, and programs on them: a statement is
--                 answered, or refused as the state says, and what was done before stays done.
--                 Crud is persistence/fabric/CRUDService.ts and the query of MetricService.ts for
--                 missing blocks, Envelopes and Sync are platform/fabric/sync/SyncService.ts. Logic
--                 says what a program brings about, and Frame, Counters, Repeats, Presence,
--                 Missing, Marked and Stuck apply it
--   Server.Routes, Server.Sessions
--                 platform/fabric/rest/adminroutes.ts; passport/local-login.ts, the login of
--                 rest/authroutes.ts and middleware/auth-check.ts. The packages passport and
--                 jsonwebtoken and the delivery of an answer are records with laws
--   Server.Http, Server.Exceptions
--                 rest/requestutils.ts, and thrown errors as their texts
--   Tests         one concrete instance of Redux and of the table of users, and the theorems at concrete inputs
--
-- A reply of the server is what superagent calls back with: an error value and a response value,
-- each any JavaScript value, and a reply without an error has a response, which the code relies
-- on: a callback with neither would throw outside the promise, which then never settles, and is
-- not modelled. A number is a natural number, as the status codes, page numbers and block numbers
-- are. An object is a list of fields whose order is not observed. There is no fuel: every
-- function is structural but the decimal text of a number, which has one unit of fuel for each
-- digit.
--
-- Server.Ledger runs one call at a time: two calls that interleave at an `await` are not modelled.
-- A block is a record of what `processBlockEvent` reads of it, as `convertFormatOfValue` leaves it;
-- the encodings of Node and of the packages, and the gateway to the ledger, are arguments.
--
-- Not modelled: the other components, rendering and styling; of the server the discovery of
-- channels, peers and chaincodes, the metrics and lists for the dashboards, the start-up and the
-- wiring of express; the packages redux, redux-thunk, superagent, react, moment, sequelize, bcrypt,
-- express, passport, jsonwebtoken, pg and fabric-network: all but react, moment, redux-thunk and pg
-- are parameters. `JSON.stringify` and `JSON.parse` are parameters. The subscription that
-- saves the theme to the local storage is left out.
pub mod Client
pub mod Common
pub mod Components
pub mod Js
pub mod Operations
pub mod Redux
pub mod Request
pub mod Server
pub mod Session
pub mod Store
pub mod Tests
pub mod Thunk
