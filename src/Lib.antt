-- ===== src/Lib.antt =====
-- StudentSystemGo: an API over MySQL for students, teachers and execs (the staff), with roles, a Redis
-- cache and rate limiter, and profile photos in S3 behind CloudFront. A request passes the middlewares,
-- a handler checks the role, parses the request, calls the repository and forgets the cached lists.
--
-- The parts, and the files that model them:
--   * Models: the structs of internal/models with their tags, as lists of fields.
--   * Reflect: pkg/utils/database_utils.go (GenerateInsertQuery, GetStructValues), GetFieldNames and
--     CheckBlankFields of internal/api/handlers/helpers.go, and the two patch loops of the repository
--     (Reflect/Patch); decoding of JSON into a struct (Reflect/Decode).
--   * Sql: database/sql over MySQL as a parameter, a record of the calls that the program makes, with
--     what is documented of them (Sql/Laws) and two small servers that meet it (Sql/Memory,
--     Sql/OneExec). The two pools are those of internal/repository/sqlconnect/sqlconfig.go; what a
--     read on the replica returns is not tied to what was written on the primary.
--   * Entity: the statements, messages and columns in which students_crud.go, teachers_crud.go and
--     execs_crud.go of internal/repository/sqlconnect differ.
--   * Repo: the operations of these files, written once over an Entity. patch_row is PatchOneStudent,
--     update_row UpdateStudent, delete_row DeleteOneStudent, add_rows AddStudentsDBHandler, get_by_id
--     GetStudentByID; Repo/Batch has patch_rows (PatchStudents) and delete_rows (DeleteStudents);
--     Repo/Photo has the photo column. Repo/Students, Repo/Teachers and Repo/Execs name the copies.
--     Repo/Lists has the list queries (GetStudentsDBHandler, GetTeachersDBHandler, GetExecsDBHandler,
--     GetStudentsByTeacherIdromDb and the count), Repo/AddExecs is AddExecsDBHandler.
--   * Cache: internal/cache/cache.go over a Redis that is a parameter.
--   * Http and Handlers: replies, AuthorizeUser of pkg/utils/authorize_user.go, and the handlers of
--     internal/api/handlers/students.go, teachers.go and execs.go over an Entity and its Routes.
--     Handlers/Lists has the list handlers with their cached pages.
--   * Photo: BuildKey of internal/storage/photo/photo.go and the handlers of students_photo.go,
--     teachers_photo.go and execs_photo.go in internal/api/handlers; Photo/Owner is whose photo a key
--     may be; Photo/Storage is the rest of photo.go.
--   * Limiter: internal/api/middlewares/rate_limiter_redis.go; Limiter/InProcess is rate_limiter.go.
--   * Server: what net/http gives a handler (the calls of a ResponseWriter are a list of actions, and a
--     handler says how it leaves the request); Server/Layers has cors.go, compression.go,
--     response_time.go and security_headers.go of internal/api/middlewares, the metrics of
--     internal/metrics/metrics.go, the limiter and the JWT check as layers, Server/Sanitizing
--     XSSMiddleware and Hpp, and Server/Chain the chain of cmd/api/server.go.
--   * Query: AddSorting and AddFilters of pkg/utils/database_utils.go, what a list request adds to its
--     query, and getPaginationParams of internal/api/handlers/students.go. `range` visits a map in any
--     order, so the columns of AddFilters are an argument.
--   * Hpp: filterQueryParams of internal/api/middlewares/hpp.go, over the parameters in the order of the
--     URL. The map that the program makes of them is their keys, each with its values.
--   * Auth: internal/api/middlewares/jwt_middleware.go and exclude_routes.go; jwt.Parse is a parameter.
--   * Sanitize: clean and sanitizeValue of internal/api/middlewares/sanitize.go; the policy is a parameter.
--   * Codes: encoding/hex and encoding/base64, as far as the program uses them.
--   * Passwords: pkg/utils/password.go; Argon2 is a parameter.
--   * Accounts: the accounts of internal/repository/sqlconnect/execs_crud.go: GetUserByUsername,
--     UpdatePasswordinDB, PrepareResetToken and ResetPasswordDBHandler, the last two in the pieces that
--     follow each of their reads. Accounts/Laws is what MySQL does with their statements.
--   * Queue: internal/queue/rabbitmq/publisher.go and consumer.go, internal/mailer and the handler of
--     cmd/worker/main.go. What the consumer's select yields is a list of events.
--   * SignToken: pkg/utils/jwt.go. Login: the account handlers of internal/api/handlers/execs.go.
--   * Router: the tables of internal/api/router and the nesting of their muxes (MainRouter).
--   * Boot: what main of cmd/api/server.go does before it serves, with InitDB, the run of the migrations,
--     InitRedis and the three steps of RabbitMQ.
--   * Common: the shared names; integers, texts (strings and strconv) and decimal numbers.
--
-- State is passed explicitly: a call of the repository takes the pool and returns a result (a value, an
-- error message or a panic) with the pool as it leaves it, and a handler does the same with the pool
-- and the Redis client. What a call wrote before it failed stays written. The loops run over the lists
-- of the request, so they end; the only fuel is that of strconv.Itoa, one more than the number, which
-- has fewer digits than that.
--
-- Of an id, `int` is 64 bits wide: atoi checks the range. A number of a JSON body is one with an
-- integral value. A decoded object is a list of members, in the order in which the program's loop
-- visits them.
--
-- What a call draws from the machine (the time, random bytes, variables of the environment) is an
-- argument; a Clock gives the two formats of a time that the program writes.
--
-- Not modelled: TLS, listening and shutting down; the main function of cmd/worker; the redirects of
-- net/http's mux, and its decoding of the escapes in a segment.
pub mod Common
pub mod Reflect
pub mod Models
pub mod Go
pub mod Sql
pub mod Query
pub mod Hpp
pub mod Auth
pub mod Sanitize
pub mod Server
pub mod Router
pub mod SignToken
pub mod Boot
pub mod Codes
pub mod Passwords
pub mod Accounts
pub mod Queue
pub mod Login
pub mod Entity
pub mod Repo
pub mod Cache
pub mod Http
pub mod Handlers
pub mod Photo
pub mod Limiter
