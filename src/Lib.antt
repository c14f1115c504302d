-- ===== src/Lib.antt =====
-- braiins-pool-exporter polls the API of Braiins Pool and keeps what it reads as metrics for
-- Prometheus. This library models the parts of it that decide something, and proves what they promise.
--
-- The program and the files of this library
--   internal/braiins/client.go calls the API, with retries:
--     Braiins/Types     the structs of types.go; Types/Decode has their UnmarshalJSON methods
--     Braiins/Errors    StatusError, TransportError, DecodeError, ResponseTooLargeError as one type,
--                       with categorizeError of internal/collector/account.go
--     Braiins/Backoff   normalizeRetryPolicy, shouldRetry, capDuration, parseRetryAfter, retryDelay
--     Braiins/Retry     DoJSON; Retry/Canceled has timerSleeper
--     Braiins/Request   NewClient, NewRequest, endpointPath, joinURLPath, the calls of the API;
--                       Request/Once has doJSONOnce
--     Braiins/Redact    redactHeaderValue, redactQuerySecrets, safeTransportError
--   internal/collector/{pool,account,worker}.go keep one last good snapshot each:
--     Collector/Cache     the state and Poll, which the three have alike; Cache/Sections has a poll as
--                         its critical sections, with scrapes between them, and Cache/Sourced the polls
--                         through the client
--     Collector/Counters  the counters of requests by category
--     Collector/Decimals  decimalToFloat and the loop over the windows
--     Collector/Pool      buildPoolSnapshot
--     Collector/Account   buildAccountSnapshot
--     Collector/Workers   buildWorkerSnapshot, with normalizeWorkerLabel and normalizeWorkerState in
--                         Workers/Labels; Workers/Order and Decimals/Order have the maps of a response
--                         without an order
--   internal/collector/history.go keeps the rewards and the payouts of the last days:
--     Collector/History/SafeAdd  safeAddInt64
--     Collector/History/Decimal  decimalToRat, parseBase10Int, pow10
--     Collector/History/Window   dateWindow, timestampInWindow
--     Collector/History/Payouts  buildPayoutSnapshot, payoutDedupKey, normalizePayoutStatus;
--                                Payouts/Identity has what a key stands for
--     Collector/History/Rewards  buildRewardSnapshot, rewardDedupKey; Rewards/Identity has what a key
--                                stands for
--     Collector/History/Poll     PollRewards, PollPayouts, Poll; Poll/Trace has the history against its
--                                polls
--   what the collectors hand to the Prometheus library:
--     Collector/Cache/Trace  the cache against the polls that made it
--     Collector/Cache/Ticker Run
--     Collector/Collect      Collect of the pool and the account, sortedCounterKeys; Collect/Workers
--                            and Collect/History have the other two, with ratToFloat64
--     Collector/Describe     the descriptors, Describe, and which collectors run registers
--   internal/config/config.go reads and checks the configuration:
--     Config           Default, Summary, envValue and what the parsers of variables share
--     Config/Validate  Validate, validateListenAddress
--     Config/Load      Load
--   cmd/braiins-pool-exporter/main.go polls the collectors in turn:
--     Main  the steps that run collects, runPollSteps
--     Main/Run  run, from the configuration to the end of the process, with the constructors of the
--               collectors; Main/Logger has newLogger, and Main/Exporter the collectors behind the
--               steps of runPollSteps
--   internal/server/server.go and internal/collector/self.go serve the metrics over HTTP:
--     Server  New with its handlers, SetReady, RequireAccountReady, Ready
--   Collector/Distinct holds the list without repeated keys, against which the loops are specified;
--   Base and Text hold numbers, int64 with its wrap-around, results, time and the strings of Go.
--
-- How code becomes a definition
--   A string is the list of its bytes. An int64 or an int is an integer; where the code adds or
--   multiplies without a test the wrap-around to 64 bits is written out. A time is the number of
--   nanoseconds since 1970 in UTC; what time.Unix makes of seconds wraps around as it does there. An
--   error of a body comes by a read of its own, behind the bytes. A map is a list of pairs of which the first with a key counts; a map
--   with a closed set of keys, as the totals by rail and status, is a function. An error is a value of
--   a result type; where the code returns several texts, the model keeps them. A big.Rat is a fraction
--   that is not reduced. A method that changes its receiver takes the state and returns the new one. A
--   critical section under the mutex is one step; in Collector/Cache a whole poll is one, since no other
--   poll of the collector runs beside it, and in Cache/Sections scrapes may fall between its sections.
--   Where a map is visited in the order that Go chooses, the model visits one listing of it.
--
-- Parameters, for what is not of the repository
--   `fold` is what strings.ToLower makes of a text with bytes that are not ASCII; `parse_time` is
--   http.ParseTime; `date_only` formats the midnight of a day; `Float64` is the arithmetic of
--   float64 and strconv.ParseFloat; `World` holds what the attempts of one call meet: the outcome
--   of each request, the context, the clock and the sleeper; `HistoryClient` holds the two calls
--   of the client that the history makes. `parse_url` is url.Parse, `clean` is path.Clean,
--   `is_buildable` says whether http.NewRequestWithContext takes a URL, `send` is Do of
--   http.Client, `decode_body` is the JSON decoder, and `Json` is what json.Unmarshal makes of the
--   texts that an UnmarshalJSON meets. In Collect `clock` tells the time by the sample that asks
--   for it, since the code reads the clock anew for each age. No theorem assumes anything of them,
--   but that the world of a call and doJSONOnce agree where a theorem joins the two. `Wake` is what
--   the select of timerSleeper gets.
--   Config has a parameter more: `Environment` holds the variables, the files, what the package flag
--   makes of the arguments, and what the parsers of durations, Booleans, addresses and URLs return.
--   Main takes the waits of a run as a list of Booleans, one for each timer: whether it fires or the
--   context is done first. A run behind a list that ends is one that still waits.
--
-- Bounds and fuel
--   The loop of DoJSON is a recursion on the attempts that are left, as many as the policy allows.
--   A number is printed with 20 digits at most, and an int64 has 19. The loops of the redaction
--   change the text that they go through; each has one round more for fuel than the text has
--   bytes. All other loops are recursions on the list that the code goes through, and that of
--   runPollSteps and Run on the waits.
--
-- Not modelled
--   The JSON decoding of encoding/json, the help texts of the metrics, what promhttp writes, what
--   package slog does with a record, the build information, the summaries of Secret and Client,
--   which are constants, and the refusal of redirects, which is a setting of http.Client. Of the
--   registry only the names and labels are modelled that it tests; the metrics of the Go and
--   process collectors are the library's.
pub mod Base
pub mod Text
pub mod Braiins
pub mod Collector
pub mod Config
pub mod Main
pub mod Server
