-- ===== src/Lib.antt =====
-- chaosblade-box-agent: the agent that a chaosblade server drives on a host or in a cluster.
--
-- The agent registers with its server and beats (conn), signs what it sends and admits only what is
-- signed (transport), carries out the server's commands through the blade binary (web/handler), and
-- watches its own heartbeats (monitor). The parts meet in the keys (pkg/tools), the options
-- (pkg/options) and the list of heartbeat snapshots.
--
-- Files, and the code that they model:
--   Prelude          Go's maps, strings, numbers and sets, as far as the program uses them. A map is an
--                    association list, `range` meets it in any order; a text is its code points.
--   Tools            LimitedList: pkg/tools/limitedlist.go. Auth and Record: pkg/tools/auth.go. Set:
--                    pkg/tools/set.go. Bash: pkg/bash/bash.go.
--   Options          pkg/options/options.go, the record of options and its setters; Startup: what the
--                    start sets; Network: what is read of the machine. Version:
--                    pkg/options/bladeoptions.go.
--   Transport        Response, Request, Uri, Interceptor, Client: the files of transport/. Http:
--                    pkg/http/http.go. Json: the values that json.Unmarshal makes. Format: fmt.Sprintf
--                    as ReturnFail calls it.
--   Conn             Heartbeat and Sender: conn/heartbeat. Connect: conn/connect. Reports:
--                    conn/asyncreport, conn/callback, conn/close. Metric: metricreport/metric.go and
--                    conn/metric, with the lock of the table. Start: conn/conn.go.
--   Monitor          Checker: monitor/checker.go. Loop and Events: monitor/monitor.go.
--   Handler          Commands, Chaosblade: web/handler/chaosblade.go with the tables of
--                    pkg/options/chaostoolsoptions.go. Chaosblade.Exec is exec, Wait the two loops
--                    that poll, Tasks the goroutines. Agent: the handlers ping, uninstallAgent and
--                    updateApplication. Litmus: web/handler/litmuschaos; Cluster is what it asks of
--                    Kubernetes, of the disk and of the hub, Rbac what is prepared before an
--                    experiment, Install the operator's installation.
--   Web              Api: web/api/handler.go and web/server. Register: web/api/api.go.
--   Collector        collector/kubernetes. Metric: the answer of the server, in kubernetes.go.
--                    Increment: the scheme of handle...Increment, get...Info, reportNotExistResource
--                    and Report that the collectors write out once each, for any type of information.
--                    Deployment, ReplicaSet, Daemonset, Namespace, Service, Node, Ingress and
--                    VirtualNode: the files of these names. Pod, with State and ExternalIp, and
--                    PodReport: pod.go. Common and Links: common.go. Watchers: the combined lister and
--                    watcher of kubernetes.go, and types.go; Events: its goroutines and Stop.
--   The other child modules hold the lemmas and theorems of their parent, Tests small runs.
--
-- How the code is rendered. State that the Go code changes in place is passed on: a definition
-- takes the state and returns it. What a mutex guards is one step. A goroutine of a handler is a
-- value of `Task`, and runs as one step, at any time; a command, too, is one step, so that what
-- another command does between its call of blade and its access of the map is left out; those of a
-- combined watch interleave step by step. A panic (a failed type assertion, an index out of range)
-- is a result of its own, `panic`. Errors are their messages. Logs and durations are left out.
-- Loops over a ticker take the number of ticks that come before the deadline: 20 at the most in ten
-- seconds of 500 ms, 60 in a minute of seconds; the theorems hold for every number. The loop that
-- copies the hub's answer to a file runs on fuel, and one round is enough: its buffer has no room.
--
-- Parameters: SHA-256, the MD5 sums, json.Marshal and json.Unmarshal, the channel to the server, the
-- clock, the generator of ids, the blade binary (a reply to each command after the commands before it),
-- the shell, the file system, what is read of the machine, Helm, the hub of Litmus, the YAML decoder,
-- the replies of Kubernetes (each after the calls before it), the resources that its indexers list,
-- the parser of IP addresses, and the match of a selector with labels.
--
-- The collectors and the server. A cache of identifiers is in step with the server's view when what
-- the view holds is what the cache has the sum of; Increment.View follows both through a round.
--
-- Not modelled: the start of the program (cmd), the constructors that only make clients of a
-- library (NewHttpClient, NewLitmusChaosHandler), the calls that make a lister or a reflector of
-- the Kubernetes client, the declaration of the flags, and the packages that only wrap downloads,
-- files, signals, logs and Helm; pkg/helm3/registry is a copy of a package of Helm.
pub mod Collector
pub mod Conn
pub mod Handler
pub mod Monitor
pub mod Options
pub mod Prelude
pub mod Tools
pub mod Transport
pub mod Web
