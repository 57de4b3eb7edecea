-- ===== src/Lib.antt =====
-- PiGate: a gate with a keypad, driven by a small computer, and the servers around it.
--
-- The parts, and how they interact. A credential server watches for an export file, parses it
-- (pigate/pkg/credentialparser) and brings the remote database in line with it. It announces that on
-- a message broker; the gate then copies the remote tables into its local database
-- (pigate/pkg/database/updater.go). The keypad reader (pigate/pkg/gate/keypad.go) turns pulses into
-- codes; the gate controller (pigate/pkg/gate/gate.go) looks a code up in the local database and
-- opens the gate, for a while or until further notice. It takes remote commands, and publishes its
-- status. The status server (pigate/cmd/statusserver) keeps what is published, in memory and in its
-- database, and publishes the commands that a page sends to it.
--
-- What models what:
--   Prelude             numbers, lists, equality, Go's `(value, error)` and panics
--   Database.Models     pigate/pkg/database/models.go
--   Database.Table      the SQL statements on a table with a primary key, as list functions
--   Database.Sql        a driver: calls that can fail, transactions, loops over rows
--   Database.ClockText  the layout "15:04:05" of Go's package time
--   Database.Credentials  the table `credentials`, which both engines have
--   Database.Sqlite     pigate/pkg/database/sqlite_repository.go: PutCredential is `put_credential`,
--                       and so on; DeleteCredential is `remove_credential`
--   Database.Postgres   pigate/pkg/database/postgresql_repository.go, in the same way;
--                       NewPostgresAccessManager is `connect`
--   Database.Managers   pigate/pkg/database/access_manager.go, and what a manager promises: `Does` in
--                       Registry says what each operation may do on a map of credentials
--   Database.Logger     PutGateLog and GetGateLogs of pigate/pkg/database/sqlite_repository.go
--   Database.Setup      NewSqliteGateManager of the same file, and the creation of its tables
--   Database.Updater    pigate/pkg/database/updater.go
--   Database.Dynamo     pigate/pkg/database/dynamodb_repository.go, over any client of the service;
--                       the two loops over batches of 25 are `write_all`
--   Database.Decimal    fmt.Sprintf("%d", …) and strconv.Atoi, as that file uses them
--   Config              pigate/pkg/config/config.go, and the configuration of each program
--   Messenger.Messages  the topics and payloads of pigate/pkg/messenger/messanger.go
--   Gate.Clock          isTimeOfDayInRange of pigate/pkg/gate/gate.go
--   Gate.Controller     GateController: tempOpen, lockOpen, Close, closeLockedOrOpen,
--                       CommandHandler, the notifications
--   Gate.Pins           pigate/pkg/gate/gpio_linux.go and gpio_unsupported.go, and what the methods of
--                       the controller call on the two pins
--   Gate.Duration       the duration that tempOpen sleeps, in 64 bits
--   Gate.World          the controller among its events, in any order: the passing of time, codes,
--                       commands, sleeping goroutines, publications
--   Gate.Access         Open, ValidateCredential, isLockCode, over any database manager
--   Gate.Keypad         pigate/pkg/gate/keypad.go: parseKeypad4 in Frame, the loop run in Reader,
--                       Start and Stop in Lines
--   Parser.Text         strings.TrimSpace
--   Parser.File         ParseCredentialFile of pigate/pkg/credentialparser/paser.go, from the records
--                       that the CSV reader gives
--   Parser.Sync         HandleFile of the same file
--   Parser.Path         filepath.Ext
--   Parser.Find         FindTextFile of pigate/pkg/credentialparser/paser.go, on a tree of files
--   Parser.Watcher      pigate/pkg/credentialparser/filewatcher.go: `watch` is the loop of Start
--   Messenger.Client    what MQTTClient publishes, over any client of the broker
--   Messenger.Connection  how MQTTClient is made, and its connection, over any library
--   Messenger.Interface  pigate/pkg/messenger/messanger_interface.go, and how MQTTClient fills it
--   Messenger.Subscriptions  the subscriptions of MQTTClient, and resubscribeAll
--   Status              pigate/cmd/statusserver/main.go: statusState in State, statusStore in Store,
--                       normalizeCommand in Commands, the callbacks and handleCommand in Server,
--                       handleStatus and the start in Page, the routes and the JSON in Http
--   CredentialServer    pigate/cmd/credentialserver/main.go: the callback and the start; its
--                       goroutines and how it is stopped in Service, `main` in CommandLine
--   GateProgram         pigate/cmd/gatecontroller/main.go: the parts of the gate put together, and
--                       the events of its run in any order
--   System              the gate and the status server together, with a broker between them; in
--                       Updating the credential server, the remote database and the gate
--   Examples            runs of the model, and the theorems at concrete data
--
-- State. A database is its tables and a schedule of faults, one entry for each call of the
-- driver: where the entry is `true` the call fails without an effect. A theorem for every
-- schedule covers every way in which calls can fail. The mutex of the controller makes its
-- methods atomic, so each is one function of its state; what runs outside of the mutex (the
-- goroutines that sleep, and those that publish) is kept in lists of the state, from which an
-- event takes any entry. Instants of the gate are in seconds, those of the keypad in
-- milliseconds, those of the status server in microseconds, and they are natural numbers. Go's
-- `int` is an unbounded integer where the program only stores, compares or sleeps on it;
-- Gate.Duration says up to which duration that is so. Every loop goes over a list, that of the
-- keypad reader over a list of events, save `digits` of Database.Decimal, which runs on fuel: it
-- is given the number itself, and divides it by ten in each step.
--
-- Assumed: `Format` and `ParseInLocation` of package time do what Go's source does on this
-- layout; the CSV reader gives records of one length (a hypothesis, `IsRectangular`); a call of
-- the database that returns an error has had no effect. The broker delivers the messages of a
-- topic in the order in which it has got them, and the last retained one to a new subscription. A
-- column of type BOOLEAN or TEXT reads back what was written to it; a column of type TIME reads
-- back the time of day. The settings of viper come from the environment before the file (a
-- hypothesis, `ReadsEnvironment`).
--
-- The programs together. In System the gate program goes through the phases of its `main`: before
-- `SetStatusNotifier`, before `NotifyGateClosed`, before it subscribes, and after; the keypad is read
-- in all of them, and the program may start again in any of them. The sessions of both clients can be
-- lost, and nothing subscribes again then but a new program. `early` says that the gate has changed
-- before the first status of its program, and not since: `NotifyGateClosed` may have told a wrong state
-- then. No publication of the gate fails there, and its goroutines publish in the order in which they
-- were started. In System.Updating a notification of the credential server may fail; `untold` says that
-- one did, and that the gate has not updated since. GateProgram.start_up is the start in which no key
-- comes before it is done; `begin` and the events cover the others.
--
-- Parameters: the library of the broker, the library of services, the driver of the chip and of
-- the keypad's lines, the client of DynamoDB, the files of the page, the library viper, the
-- environment, which characters separate the elements of a path, and how a path and a name are
-- joined. The Go map `subscriptions` is a list of pairs, and a walk over it any list with the
-- same entries.
--
-- Not modelled: the decoding of a request, the page, and the libraries that serve HTTP and that
-- make the credential server a service of the operating system. The callbacks of the watcher run
-- in goroutines of their own; each runs as a whole here, save in Parser.Sync.Overlap, where the
-- calls of two with the same file are mixed. The codes of the keypad reader are handled when the
-- events of one second are over, which nothing can tell, since the reader does not look at the
-- gate. A program that cannot start ends; here it has started, save in System, where the gate
-- program may end and start again at any point. Texts of errors that only go to the log are
-- shortened. Log lines are left out everywhere.
pub mod Prelude
pub mod Config
pub mod Database
pub mod Messenger
pub mod Gate
pub mod Parser
pub mod Status
pub mod CredentialServer
pub mod GateProgram
pub mod System
pub mod Examples
