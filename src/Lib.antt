-- ===== src/Lib.antt =====
-- The server of the Damaru project: users and their accounts, the devices (emulators) that are linked
-- to users and assigned to accounts, the login, the guards of the routes, and the signaling between
-- clients and devices. The code is TypeScript on NestJS, with TypeORM for the database and socket.io
-- for the messages.
--
-- Files and sources, with paths from the root of the repository:
-- Prelude, Prelude/Exec: the names that the files share; async methods as functions from a state to
-- a result (a value or an exception) and a state. What was written before a throw stays written.
-- Prelude/Texts: split and substring.
-- Prelude/Lists: map and filter in one.
-- Prelude/Random: src/common/utils/string.utils.ts.
-- Token: src/modules/users/enums/roles.ts, src/modules/auth/interfaces/jwt_token.ts.
-- Repository: the interface of a TypeORM repository, by its operations (find, findOne, insert,
-- update, upsert, delete) and the laws that the code relies on. Repository/Keys has what follows for
-- a lookup by key; Repository/Memory fills the interface with rows in a list.
-- Environment: src/common/utils/date.utils.ts and utils.ts over the clock, moment and configuration.
-- Database: the entities of src/modules/*/entities as records, and the database as a list of rows
-- for each table. Database/Repositories has the declared constraints, Database/Statements the
-- statements with the cascades, Database/Effects, Database/Cascade and Database/Accounts what the
-- statements do.
-- Guards, Guards/Laws: src/core/guards.
-- Accounts, Accounts/Laws and below: src/modules/accounts/services/account.service.ts (create,
-- update, remove, findUserByAccount, findRootAccount).
-- Accounts/Queries: findAll and findOne of it.
-- Users, Users/Laws: src/modules/users/services/user.service.ts (create, update, remove).
-- Users/Queries: findAll of it.
-- Users/Creation, Users/Creation/Statements: what create leaves behind.
-- Users/Admission: a new user's first login.
-- ActivityLogs: src/modules/activity_logs/services/activity_log.service.ts.
-- Auth, Auth/Laws, Auth/Refusals: src/modules/auth/services/auth.service.ts (validateUser, login),
-- and src/modules/auth/controllers/auth.controller.ts.
-- Auth/Sessions: what the token of a login is good for.
-- Auth/Consistency: the login and the invariant of the links.
-- Emulators: src/modules/emulators/services/emulator.service.ts. Emulators/Links has linkEmulator,
-- unlinkEmulator and extend; Emulators/Assignments the four methods that assign and unassign;
-- Emulators/Devices (and Laws) create, update, findOne, remove and linkScreenshot; Emulators/Queries
-- findAll with its response mapper, findLinkedDevices and connectionLog. Emulators/Links/Invariant
-- has the invariant of devices and links, Emulators/Links/Kept the changes that cannot break it,
-- statement by statement, Emulators/Links/Owners the specification of linking as operations on a map
-- from devices to owners, and Emulators/Links/Refinement that the code implements it.
-- Emulators/Links/Extension: extend.
-- Emulators/Queries/Seen: whom findAll shows a device.
-- Signaling, Signaling/Map, Signaling/Sessions: src/core/signaling/SignalingServerGateway.ts, and
-- connectEmulator and disconnectEmulator of the emulator service. handle_hang_up is `disconnect`,
-- and connect_emulator is what `connect` calls.
-- Signaling/Events: the events with their guards, src/core/guards/wsjwt.guard.ts, and the middleware
-- of afterInit.
-- Signaling/Consistency: the messages and the invariant of the links.
-- Routes, Routes/Laws: the controllers of the emulators, the accounts, the users and the activity
-- logs.
-- Routes/Consistency and below: each request and the invariant of the links.
-- Routes/Isolation, Accounts/Laws/Isolation and Emulators/Owned: the requests and the accounts of
-- other users.
-- Routes/Access: who is served.
-- Routes/Patches: the update of a device.
-- Routes/Reads: the routes that read; Routes/Reads/Passwords: what the logs show.
-- Encryption: src/core/encryption/encryption.service.ts, and encrypt, decrypt and toggleEncryption
-- of src/modules/app/app.controller.ts.
-- Encryption/Values: JSON values.
-- Encryption/Interceptor: src/core/middlewares (EncryptionInterceptor, ResponseInterceptor,
-- ExceptionHandler).
-- Encryption/Laws and Encryption/Exchange: what decrypts to what.
-- Apks, Apks/Laws, Apks/Uploads: src/modules/apks, with the filter and the storage of its module.
-- System: requests, logins, messages, leaving sockets, starts and the encryption's switch in any
-- order, as a step relation.
-- System/Failures and below: which requests throw a TypeError.
-- System/Seeder and below: src/core/database/coredataseeder.service.ts, which src/main.ts calls at
-- every start.
-- Tests: a small database in memory, and the theorems at it.
--
-- A request goes through Routes: the guard of the route, then the service's method, which runs
-- statements on the database one after the other. A message goes to a handler of Signaling, whose
-- state is the database, the map from devices and accounts to sockets, and the list of what was
-- emitted. Before the routes stands the interceptor, which decrypts a request and encrypts its
-- answer where the switch in the database is on: its theorems are about any handler. The apks have
-- their own table and files.
--
-- Parameters: the repositories (with their laws), the clock, moment, the configuration, bcrypt, the
-- signature and the verification of a token, the indexes drawn at random, Node's crypto module with
-- the server's keys, JSON's functions (with their laws), and for the apks parseInt, the database's
-- order of its numbers, their repository and multer's storage. The order in which a query without
-- ORDER BY gives its rows is the repository's, and an insertion's new key too; a statement that
-- writes may fail for any reason. A query answers, but for those that assigning and unassigning
-- make, which the database refuses for a text that is not a user's key; a lost connection is not
-- modelled. A date is a number; that a column of the type `date` keeps the day alone is not
-- modelled. The bodies of requests are objects, which no pipe checks: a list, an action or a file
-- that the code reads may be absent, and an update of a device may write any column; the other
-- fields have the types that the code declares. A request runs without another between its
-- statements, and a promise that is not awaited runs where it is made, with its failure ignored. The
-- update of a repository has laws only for a change that keeps the primary key.
--
-- Loops are recursion on the list that the code goes through, or on the number of rounds left, so
-- there is no fuel. Texts are taken apart by characters.
--
-- Not modelled: the time stamps that TypeORM sets by itself, but for that of the update of an
-- account; findOne of the activity logs, which no route calls; CustomException, which nothing
-- throws; the set-up of the framework in src/main.ts and the wiring of the modules; passport's
-- strategies; the scripts of src/helpers; and bcrypt.
mod Prelude
pub mod Token
pub mod Repository
pub mod Environment
pub mod Database
pub mod Guards
pub mod Accounts
pub mod ActivityLogs
pub mod Users
pub mod Auth
pub mod Emulators
pub mod Routes
pub mod System
pub mod Encryption
pub mod Apks
pub mod Signaling
pub mod Tests
