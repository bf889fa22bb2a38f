-- ===== src/Lib.antt =====
-- An authentication service in NestJS, as a library of its model and the theorems about it.
--
-- The program. src/auth/auth.service.ts owns the flows: registration, login with a lockout, access
-- and refresh tokens that rotate, logout, and the passwords and addresses that are changed, reset
-- and verified. It reads and writes accounts through src/users/users.service.ts, the only code that
-- calls the Mongoose model, and mails through src/mail/mail.service.ts. Around a request stand the
-- sanitizer of its input, the guards and the JWT strategy, the interceptor that wraps a result and
-- the filter that turns anything thrown into a response.
--
-- The files.
-- Prelude, Prelude/*: names of the libraries passed on, tests, lists over native numbers, objects
-- as association lists, numbers in decimal.
-- Common/Exceptions, Common/Action: what the services throw, and a method as a function from the
-- state to a result and the state; what was written before a throw stays written.
-- Common/Json, Common/Stringify: JSON values and JSON.stringify; Common/Token: the random tokens of
-- src/common/utils/crypto.util.ts.
-- Common/Role: src/common/enums and the payloads of src/common/interfaces.
-- Common/Sanitize, Common/Filter, Common/Guards, Common/Response, Common/Validation: the
-- middleware, filter, guards, interceptor and password pattern of src/common.
-- Users/Schema: the document (src/users/schemas/user.schema.ts); Users/Json: its toJSON transform.
-- Users/Collection: the Mongoose model as an interface, calls with their documented effect on the
-- list of documents, which has the new ones last, and an implementation in memory. A page is cut
-- from the documents that match in an order of the call's own. `create` refuses an address that any
-- document has, as the unique index does; a filter is a test on a document and an update document a
-- function on it.
-- Users/Updates: the filters and update documents of UsersService; Users/Service: its methods;
-- Users/Service/Effects: what each does to the documents; Users/Documents, Users/Lookups,
-- Users/Invariant, Users/Changes, Users/Quiet: lookups after updates, what no update touches, and
-- which keep a password or a session; Users/Listing, Users/Pages:
-- src/common/utils/pagination.util.ts and listUsers; Users/Seed: src/database/seeds/seed-admin.ts.
-- Mail, Logger, Database: src/mail/mail.service.ts, src/logger/app-logger.service.ts and
-- src/database/database.module.ts.
-- Auth/Deps: what AuthService is given; Auth/Service, Auth/Service/Tokens: its methods under their
-- names in snake case (refreshTokens is refresh_tokens); Auth/Steps/Requests: the requests that
-- write, as steps from state to state; Auth/Steps: what they do to the documents; Auth/Strategy:
-- src/auth/strategies/jwt.strategy.ts with the guards. The other files of Auth are named for what
-- they prove.
-- App/AuthController, App/UserControllers: the handlers of src/auth/auth.controller.ts,
-- src/users/users.controller.ts and src/users/profile.controller.ts; App/Routes: what the
-- decorators say of each route; App/Pipeline: a request on its way through src/app.module.ts, from
-- the rate limit to the filter; App/Handlers, App/Refines: served requests as steps of the
-- services; App/Bearer, App/Allowed, App/Removal, App/Isolation: who may make a request, and whose
-- account it may change; App/Replies: what every request is answered with; App/Trace: the
-- middleware that identifies a request, and the line of a failure; App/Signup: requests to public
-- routes, one after the other; App/Server: src/main.ts; App/Start: the start, from the environment
-- to the server.
-- Config/Numbers: parseInt; Config/Namespaces: src/config/*.config.ts, with the options of the rate
-- limiter; Config/Printed: an environment written from given numbers; Config/Validation:
-- src/config/env.validation.ts.
-- Dto/Rules: the classes of src/auth/dto, src/users/dto and src/common/dto, a property with its
-- decorators each; Dto/Pipe: the options of the pipe in src/main.ts, and Nest's ValidationPipe as a
-- parameter with its documented behaviour; Dto/Receive: from what is sent to the call of a handler,
-- by way of the sanitizer and the pipe, with Dto/Read and Dto/Fields between an instance and the
-- typed classes; Dto/Passed, Dto/Typed, Dto/Vetted, Dto/Undeclared, Dto/Strong and Auth/Strength:
-- what the pipe lets through, and what becomes of passwords.
-- Tests/*: a small world and the theorems at it.
--
-- The choices. Identifiers are numbers, already cast from their strings; times are milliseconds,
-- and `iat` and `exp` seconds. A request reads the clock once; the clock, the random tokens,
-- bcrypt's salt and the identifier of a new document are arguments. Requests are served one at a
-- time, but for Auth/Races and Users/Races, where the reads of two requests come before their
-- writes. bcrypt, SHA-256, @nestjs/jwt, the verification of bearer tokens by Passport, the tables
-- behind toLowerCase and trim, the regular expressions of MongoDB and Nest's built-in exceptions
-- are parameters, and so are Nest's ValidationPipe with class-validator and class-transformer, and
-- what ConfigModule makes of the files; where a theorem relies on their documented behaviour, that
-- is a hypothesis of it. Configured numbers are natural. Reading a field of a token that does not
-- decode throws, which is the constructor type_error. Express 5 parses `req.query` anew at each
-- access and gives each layer its own `req.params`, so of the three objects that the sanitizer
-- changes in place a handler gets the body. Of what the filter logs, the stack of the exception is
-- a parameter. Of an event that AuthService logs the message and its two properties are kept.
-- Integers that parseInt reads become the nearest doubles, which are a parameter. A body is a JSON
-- object, with natural numbers; a profile form that leaves the pipe with a null, which
-- `@IsOptional()` lets through, has no typed call, and is not followed further. Everything recurses
-- on its data, so there is no fuel.
--
-- Not modelled: modules, and of the bootstrap what does not depend on the configuration or the
-- requests; the counting of the rate limiter, whose verdict is a part of a request; `select`
-- projections, since no method reads a field that its query leaves out; `createdAt` and
-- `updatedAt`, which only Mongoose writes.
pub mod Prelude
pub mod Common
pub mod Config
pub mod Dto
pub mod Users
pub mod Mail
pub mod Logger
pub mod Database
pub mod Auth
pub mod App
pub mod Tests
