-- ===== src/Lib.antt =====
-- nexad, the daemon of a container orchestrator. A node runs the daemon; it keeps the state of the
-- cluster, answers the DNS queries of the containers, gives networks their subnets, and holds routes,
-- certificates and secrets. Each part is modelled on its own, with the parts that it uses as arguments.
--
-- Dns models src/adapters/dns. Dns.Records is `DnsRecordStore` (record_store.rs): nested maps from a
-- project and a deployment to the addresses of its pods, with `register`, `deregister`, `lookup` and
-- `resolve`. Dns.Wire is hickory.rs: `parse_question`, `build_dns_response` and `handle_dns_query`, over
-- bytes as natural numbers. Dns.View, Dns.History, Dns.Clean and Dns.Resolve prove about the store,
-- Dns.Wire.Codec, Question, LabelLoop, Answer and Query about the messages. `parse_labels` takes as fuel
-- one more than the bytes of the message, enough since each round reads at least one byte, and LabelLoop
-- has the loop without fuel; the decimal
-- form of a number takes one more than the number. The server that unknown names are passed to and
-- `str::to_lowercase` are parameters. Dns.Server is the provider, and what its UDP and TCP servers make of
-- what they receive; sockets and timeouts are not modelled.
--
-- Network models `SubnetAllocator` of src/adapters/network/subnet.rs, whose counter is a byte, and in
-- Network.Wireguard the manager of wireguard.rs. Health.Checker is the probes of src/adapters/health.
-- Runtime models the networks of src/adapters/runtime/cni.rs: Runtime.Cni has the allocator and the
-- configuration files of `CniManager`, and every fault that the file system can report at a call.
-- Runtime.Image is `normalize_image_ref` of src/adapters/runtime/containerd.rs, Runtime.Containerd its
-- calls over the command `ctr` and its attaching to networks, which the code has not implemented, Runtime.CtrEvents the lines of the events. The command is a parameter
-- that changes a state; the rounds of waiting that begin before the deadline are an argument, so that no
-- fuel is needed. Runtime.Docker is docker.rs: what it makes of configurations, answers and events, and in
-- Runtime.DockerCalls its calls of the client library, which Runtime.DockerClient has as parameters over
-- the daemon's state. Runtime.Detect is detect.rs, Runtime.LogTailer log_tailer.rs, for a list of readings.
-- White space is trimmed and split by parameters.
--
-- State models src/adapters/state/memory_route_store.rs in State.Routes, and on top of it
-- src/adapters/tls: importing and issuing a certificate, and one pass of the renewal task. The proofs
-- are in State.RouteLaws, State.Certificates and State.Subnets.
--
-- Cluster models src/cluster. Cluster.Nodes has the nodes, the pods and the record `StateStore` of the
-- operations that the cluster calls; Cluster.Heartbeat is one pass of the master's monitor
-- (heartbeat.rs), Cluster.Server the registration and the heartbeat messages (server.rs), Cluster.Token
-- the join tokens (token.rs). Times are nanoseconds, a negative difference counting as none, as in the
-- code. Cluster.Lawful states what is relied on of a store: readings do not fail and find what was
-- written. Cluster.Table is a store of that kind, and Sqlite.StoreLaws is about the one in use.
-- Cluster.Passes has `run_monitor`, whose loop is run for the ticks by some time, and the passes among the
-- messages of the workers; there a pass is one step, although the code awaits between listing the nodes
-- and writing them, and Cluster.Lost is about a message that comes in between. Cluster.Sender is the worker's side of heartbeat.rs. SHA-256, the hexadecimal
-- form, the text form of ids and the constructor of a node are parameters.
--
-- Sqlite models the store of src/adapters/state/sqlite.rs and the tables that its migrations create, row
-- by row: Sqlite.Tables has the rows, Sqlite.Projects, Sqlite.Pods and Sqlite.Nodes the statements, with
-- the casts between signed and unsigned numbers that they make. A floating-point number is its 64 bits,
-- the two zeros counted as one; SQLite binds a NaN as NULL, which the columns of the nodes refuse. The text forms of ids, times, JSON and
-- enumerations are the record `Codec`; whether the database fails at a call is an input. Sqlite.Runs
-- runs sequences of statements. Sqlite.Backing is the store without faults behind the interfaces of the
-- cluster and the handlers, over tables that are written from nodes (Sqlite.Store).
--
-- Proxy models the backends of src/adapters/proxy: Proxy.Traefik, Proxy.Nginx, Proxy.NexaProxy and
-- Proxy.Caddy have what each writes for the routes and how each removes a domain. A file is its content,
-- with what the file system reports as an input; the YAML and JSON forms, `trim` and `trim_end` are
-- parameters, and so is what running nginx or the proxy gives, and what Caddy's API answers
-- (Proxy.CaddyAdmin). A depth of braces is a natural number,
-- looked at behind each line; the number of braces is taken to be below 2^31.
--
-- Api models src/api/handlers.rs. Api.Response has statuses and bodies, Api.Projects the handlers over
-- the orchestrator's calls, which are a record, as the orchestrator is in the core library; Api.Admin
-- the handlers over a state store, for nodes and the join token. Api.Store and Api.TokenLaws state what
-- is relied on of the store, Api.Table is one of that kind. Api.Streams has the handlers that stream and
-- those about the metrics, Api.Stats the statistics of the nodes, with floating-point arithmetic as a
-- parameter.
--
-- Secrets models src/adapters/secrets/encrypted.rs over the rows of its table, and the key file of
-- src/crypto/master_key.rs. The cipher is a parameter that opens what it sealed; the faults of the
-- database and the file system are inputs.
--
-- Transport models src/adapters/transport/local.rs and the pod messages of src/cluster/server.rs, over a
-- record of the runtime's calls, each of which may change the runtime's state: Transport.Container has
-- the configuration that both build, Transport.Local and Transport.Remote the two sides. The names of
-- containers and the fields of volumes are the core library's and parameters.
--
-- Start models src/main.rs, as far as it decides anything: Start.Choice has what the arguments choose,
-- Start.Master what a master writes to the store and the hash that its server gets, Start.Worker how a
-- worker joins (src/cluster/worker.rs).
--
-- Events models the streams of src/adapters/event_watcher.rs: what is sent to the orchestrator and what
-- is announced; Events.Reconnect is the loop that opens the streams. The orchestrator's channel takes a
-- number of commands and is then closed.
--
-- Prelude, HashMap, Str and Result are shared: a map is an association list with one entry for a key,
-- whose order stands for the unspecified order of `HashMap`, and of a `BTreeMap` says nothing; a text is
-- the list of its bytes, and Str.Lines has the lines of one. Logging
-- leaves no trace in the models. An asynchronous method that holds one lock throughout is one step.
--
-- Not modelled: how main.rs connects the parts and spawns the tasks; code that only
-- calls a library or another program (metrics, WireGuard, gRPC clients); and the generated code.
pub mod Prelude
pub mod HashMap
pub mod Str
pub mod Api
pub mod Cluster
pub mod Dns
pub mod Events
pub mod Health
pub mod Network
pub mod Proxy
pub mod Result
pub mod Runtime
pub mod Secrets
pub mod Sqlite
pub mod Start
pub mod State
pub mod Transport
