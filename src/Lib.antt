-- ===== src/Lib.antt =====
-- OpenCuttles: the control plane of an Android device lab, backend/internal of the repository.
--
-- The API takes requests for devices. Package orchestrator checks the state of the device, writes
-- an operation and a transitional state to the SQLite store, and starts a goroutine that runs the
-- host's tools and writes the outcome. Package scheduler starts the test cycles that are due,
-- package scenario runs a cycle one case at a time through the agent, or a script of steps, package
-- runnerhub relays calls to the runners of desktop devices, package devicecontrol drives a device
-- over adb or through such a runner, package retention deletes old artifacts, package insights sums
-- up past runs, and package auth decides who a request acts for. The agent reaches the devices
-- through the tools of package mcp, which also writes down what it reports of each step; packages
-- qmetry and specdoc make test cases of sheets and of documents.
--
-- Which file models what:
--   Go and below                  error values, functions that keep what they wrote before an error,
--                                 what the code uses of strings, strconv and fmt, and in Times the
--                                 order of the texts that formatTime writes
--   Domain                        backend/internal/domain/models.go: records and constants
--   Store                         backend/internal/store/sqlite.go, physical.go: the methods that
--                                 the orchestrator calls (GetInstance is get_instance, and so on)
--   Store/ImagePath               ValidateImagePath; Store/Create: nextPortsTx and CreateInstance;
--                                 Store/Register: CreatePhysicalAndroid
--   Orchestrator                  backend/internal/orchestrator/service.go and runner.go: Tools has
--                                 launch, stop and ensureImage, Ready has waitReady and
--                                 finalizeConsole, Jobs the goroutines runStart to runDelete,
--                                 Requests StartInstance to DeleteInstance, Reconcile Reconcile
--   Scenario                      backend/internal/scenario/cycle.go: Verdict has classifyCase,
--                                 Totals what the loop over the cases counts, Exclusive has
--                                 execute and the map of busy devices
--   RunnerHub                     backend/internal/runnerhub/hub.go
--   Retention                     backend/internal/retention/retention.go
--   Scheduler                     backend/internal/scheduler/scheduler.go and cron.go
--   Insights                      backend/internal/insights/insights.go: the health of one case
--   Auth                          backend/internal/auth/service.go and store/auth.go: roles,
--                                 sessions, AuthenticateRequest and Logout; Accounts has
--                                 BootstrapAdmin, Login and the stored passwords
--   DeviceWatch                   backend/internal/devicewatch: Parsing has ParseADBDevices, Polling
--                                 pollOnce and what it calls
--   DeviceControl                 backend/internal/devicecontrol: resolve, adb and its transport;
--                                 Drivers has driverFor and the two drivers, Operations the gestures
--                                 and queries, Installs the installs, recordings and Perf, Hierarchy
--                                 and Readings what adb's outputs are parsed to, Typing the escapes
--   Script                        backend/internal/scenario/runner.go: Steps has runStep and
--                                 groundAndTap, Runs has execute and finish, Words containsLoosely
--   CaseStore                     backend/internal/store/cases.go and tests.go: Cases, Cycles and
--                                 Runs have their methods
--   Mcp                           backend/internal/mcp/server.go: resolveDevice and the bindings;
--                                 Tools, Handlers and Calls have the tools of registerTools, Report
--                                 report_step_result
--   Intake                        backend/internal/qmetry/import.go: Headers has mapHeaders, Rows
--                                 parseRows; backend/internal/specdoc/generate.go: Drafts
--   Api                           backend/internal/api/server.go: the limiter, clientIP and audit;
--                                 Handlers has require, mcpAuth, bootstrapAdmin and login
--   Examples                      small worlds, tests, and the theorems applied to them
-- Store/Rows, Store/Keeps, Store/Laws, Go/Laws, Orchestrator/Quiet, Orchestrator/Jobs/Rules,
-- Orchestrator/Jobs/Evidence, DeviceControl/Effects and DeviceControl/Aimed hold the lemmas that
-- these share.
--
-- State. A World has the tables, a clock in milliseconds, the commands that were run, and a tick
-- that counts the calls which leave the program. What the database, the host's tools and the
-- operator answer is a function of the tick (Database, Machine), so every theorem holds for all
-- their answers. A context is its deadline, and a database call or a command whose context has
-- expired fails. The cycle executor runs over any state, since the code takes its store as an
-- interface. A goroutine is a value (Job); where goroutines meet at shared state, as at the map of
-- busy devices, they are steps of a relation. A Lab is a World with the calls that went through the
-- runner's tunnel; its Bench answers for the device, the decoders and the tunnel.
--
-- Loops. waitReady and waitWebRTC sleep 3 and 2 seconds in each round and stop after 4 minutes and
-- 45 seconds, so they get 80 and 23 rounds of fuel (Orchestrator/Ready/Fuel), and the wait for a
-- desktop install, which sleeps 3 seconds for 6 minutes, 120 rounds (DeviceControl/Waits). atoi and
-- the other loops are structural.
--
-- Not modelled: most handlers of the HTTP API and its routes, exports and the model clients,
-- listings that only sort, the SQL schema, log lines, and the ticker loops around one tick. Time is
-- in milliseconds in World and in nanoseconds in Retention. The client of /devices is an answer of
-- the Machine. The directory relinking before cvd fetch is left out. What is decoded by packages
-- outside the repository (XML, JSON, PNG, base64) is a parameter, and so are the regular
-- expressions but that of an ADB target, and the outputs of commands are texts.
mod Base
pub mod Go
pub mod Domain
pub mod Store
pub mod Orchestrator
pub mod Scenario
pub mod RunnerHub
pub mod Retention
pub mod Scheduler
pub mod Insights
pub mod Auth
pub mod DeviceWatch
pub mod DeviceControl
pub mod Script
pub mod CaseStore
pub mod Mcp
pub mod Intake
pub mod Api
mod Examples
