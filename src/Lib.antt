-- ===== src/Lib.antt =====
-- Verification of the collectors of IBM MQ metrics and of the route display program.
--
-- The repository holds three collectors, which read metrics of a queue manager through the package
-- mqmetric and give them to JSON (cmd/mq_json), Prometheus (cmd/mq_prometheus) or OpenTelemetry
-- (cmd/mq_otel); what they share of configuration and of error handling is pkg/config and
-- pkg/errors. dspmqrtj traces the route of a message from the reports that queue managers send
-- back. amqsevtg formats the event messages that its callbacks are given.
--
-- A collector fills its configuration in three steps: ParseParms (pkg/config/config.go) reads
-- defaults, environment and command line, CopyYamlConfig (pkg/config/configyaml.go) adds the values
-- of a YAML file that the user has not overridden, and VerifyConfig (config.go) checks the whole. It
-- then connects, discovers what there is, and collects until the errors get too many.
--
-- Prelude and its children: shared names, Boolean tests, lists, texts as bytes, association lists,
--   signed integers, decimal texts.
-- Config/Parms: the parameters. Vars has the variables behind the pointers, Entry the table and
--   AddParm, Convert strconv's conversions, Flags the part of Go's flag package that is used,
--   Parse the function ParseParms, Precedence the theorem on it.
-- Config/Init: the table that InitConfig builds. Config/Record: the
--   structure Config.
-- Config/NameSets: the maps of metric names to include or exclude, and their indices.
-- Config/Yaml: CopyYamlConfig. Types has the structures of a file, Copy the helpers
--   CopyParmIfNotSet…, Rows the plain assignments as a table, Filters the metric filters, Whole
--   the composition; Precedence, Copied, Join and Faults are proofs.
-- Config/Verify: VerifyConfig. Steps and Late have its blocks, Whole the composition; Frames,
--   Kept, Late/Fill, Verified and Untouched are proofs.
-- Config/Start: what the three versions of initConfig (config.go in cmd/mq_json, cmd/mq_prometheus and
--   cmd/mq_otel) have in common: ParseParms, the file, VerifyConfig, the password. Own and Kept are
--   proofs. Json/Settings, Prometheus/Settings and Otel/Settings are the three versions, each with
--   proofs in its File.
-- Status: HandleStatus of pkg/errors/errors.go.
-- Json/Chunk, Json/Fixup, Json/Poll, Json/Labels: chunk, fixup, the status poll of Collect and
--   addMetaLabels of cmd/mq_json/exporter.go. Json/Points/Blocks has the keys and tags that Collect
--   gives to each type of object, Points/Merge the loops over the status that fill the points,
--   with the proofs Shared and Stored. Json/Collect is Collect itself, with the published metrics and
--   the statistics in Collect/Publish; Collect/Kept and Collect/Printed are proofs.
--   Json/Connect: the start of cmd/mq_json/main.go.
-- Prometheus/Reconnect: the main loop of cmd/mq_prometheus/main.go with the flags of status.go, and
--   what the scrapes of exporter.go and the web server do to these.
-- Prometheus/Labels, Vectors, Scrape: cmd/mq_prometheus/exporter.go. Labels has the labels that
--   Collect gives to the values of each type of object, Vectors MQVec with newMqVec, newMqVecObj
--   and makeKey, Scrape the poll and the loops over the vectors of one
--   type. Labels/Cover, Match, Accepted and Published, Vectors/Keys, and Scrape/Named are
--   proofs. Allocate has the maps of vectors, allocateAllGauges and Describe, Collect (with Loops) the
--   whole of Collect; Allocate/Fits and Described, Collect/Filled, Orders, Steps and Total
--   are proofs.
-- Mqmetric: what the collectors read of the package mqmetric, as a record.
-- Otel/Gauges, Tags, Reports, Poll, Reader: cmd/mq_otel/reader.go. Gauges has addMetric, observe and the
--   loops on the map of gauges, Tags the tags for each type of object, Reports the loops of
--   GetMetrics that report, Poll the calls for the status, Reader GetMetrics itself. Gauges/Slices and Held, Reports/Given, Total
--   and Complete, Reader/Cycle, Errors and Total are proofs. Otel/Main: the program of
--   cmd/mq_otel/main.go, with proofs in Main/Errors.
-- Amqsevtg: Names and Values are prettyName and prettyValString of amqsevtg/format.go, Elements its
--   printElem; Callback is cb and Events formatEvent of amqsevtg/callback.go, Output what it
--   prints; Open is the opening of the objects in amqsevtg/amqsevtg.go. Values/Clean,
--   Callback/Quiet, Events/Groups and Open/Ready are proofs.
-- Dspmqrtj/Format, Activities, Parse, Summary: format.go, structures.go, parseParm and parseMsg of
--   tracert.go, and printSummary of main.go in dspmqrtj. Parse/Stored, Summary/Listed and Route
--   are proofs. Sending: the messages that tracert.go puts and its wait for replies, with
--   the proofs Sending/Local.
-- Tests: the theorems at concrete inputs.
--
-- Variables of the program are named by their paths, as "cm.QMgrName"; a value behind `interface{}`
-- is a sum of the types that occur; a panic, and a process that ends, are results. Go maps are
-- association lists, in one order of those in which Go may range over them; the table of parameters
-- is sorted before it is used, as in the source. Go's int has 64 bits: strconv's conversions keep its
-- limits, and counters stay far below them. The only fuel is that of Json/Chunk, one more than the
-- number of points, and it is enough as every round takes at least one point.
--
-- Parameters of the model are what the source calls and does not define: the environment, the
-- conversion of integer flags, mqmetric's reading and checking of patterns, the parser of durations
-- and times, mq.MQItoString, strings.TrimSpace, and the outcomes of mqmetric's calls. Not modelled
-- are input and output, logging, passwords that are typed, the HTTP server, locks, the setting up of
-- the OpenTelemetry library, the reading of messages' bytes, and vendored packages, whose calls
-- are parameters: a vector of the Prometheus client takes labels that have exactly its names
-- and texts that are valid UTF-8, and a counter panics on a negative number.
pub mod Prelude
pub mod Config
pub mod Status
pub mod Json
pub mod Mqmetric
pub mod Otel
pub mod Prometheus
pub mod Dspmqrtj
pub mod Amqsevtg
pub mod Tests
