-- ===== src/Lib.antt =====
-- Sigillum is a mail gateway for workloads of a Kubernetes cluster. A caller, known by its
-- ServiceAccount or (in a legacy mode) by its pod's IP, hands in a message over REST or SMTP; the
-- gateway finds the MailPolicy that governs the caller, checks the message against it, charges the
-- policy's rate limit and hands the message to a backend.
--
-- Common: names from the libraries and helpers: Boolean tests, lists, Go's signed integers (Int)
-- and strings as lists of bytes (Text).
--
-- Policy: internal/policy/engine.go, internal/policy/address.go and the types of
-- api/v1alpha1/mailpolicy_types.go that they read. Types has the records, Match the function
-- `Match` with `NeedsSALabels`, Evaluate the function `Evaluate` with the sender and recipient
-- rules, Address the functions `ValidateMailbox` and `ValidateDomain`. A loop that returns at its
-- first hit is a recursion over the list. Go's Unicode functions, `path.Match` and the label
-- selectors of apimachinery are the fields of `Types.Platform`, a parameter.
--
-- Gateway: internal/gateway/gateway.go and validity.go, with the types that they take from
-- internal/driver, internal/audit and api/v1alpha1. `Gateway.Send` is `Send.send`, cut at the
-- function's returns: match and validity, decision, backend, driver, charge and delivery, end. Its
-- state is the audit stream, the limiter, the validity cache, the deliveries that drivers were asked
-- for and the number of open drivers. The limiter is a parameter with an interface, `LimiterOps`;
-- Memory fills it with RateLimit's. The rest of the program that the pipeline calls (API reader,
-- admission rules, config resolver, drivers) is the parameter `Services`.
--
-- SmtpProxy: internal/smtpproxy. Bcc has `stripBcc` of bcc.go, over the list of a message's lines;
-- Headers what `parseMessage` reads of a message, with net/mail as a parameter, and the address
-- checks
-- of internal/policy/address.go that need it; Reply the mapping of results to SMTP replies
-- (`resultError`); Session the commands of session.go.
-- A session is a record; a command takes what it finds outside (the clock's and the API's answers,
-- free places, the bytes read) as one argument, and the sender's state is passed through. go-smtp
-- admits one login in a session and no DATA before MAIL; the commands are modelled without that
-- order. Session/Audited fills the sender with Gateway. Login has the login by password of
-- credential.go, over Credential's verifier, and its limiter of failed attempts.
--
-- Credential: internal/credential/credential.go and verifier.go. The file itself has the user names
-- and the excluded namespaces, Argon2 the hashes that users bring along (`ParseArgon2id`), Verifier
-- the hashes of generated passwords and `Lookup`, `Check`, `StillValid` over what the API reader
-- answers, Rotation the rotation of generated passwords in
-- internal/controller/mailcredential_controller.go, from its decision to the new status. SHA-256,
-- base64, argon2 and the LRU cache are parameters.
--
-- Rest: internal/apiserver. Types has the payloads, Checks, Attachments and Body what
-- messages.go checks and reads of a request, Answers how a result is written, Handler
-- `authMiddleware` with `handleSendMessage`, from the token to the audit record, with the
-- reservation of bodybudget.go. The decoders of the standard library are the parameter `HttpLib`;
-- what a request finds outside of it, the answer of the semaphore included, is an argument.
--
-- Mime: internal/driver/smtp/mime.go. The file itself has the writer that wraps base64 lines,
-- QuotedPrintable, Folding and Disposition the encodings, Message `AssembleMessage` with the
-- structure of the parts. The multipart writer, encoded-words and media types of the standard
-- library are parameters.
--
-- SmtpDriver: internal/driver/smtp/smtp.go, a conversation with a relay and the failover between
-- relays. What a relay answers to a call is a parameter, and the calls made are part of the result.
--
-- RateLimit: internal/policy/ratelimit/ratelimit.go and memory.go, the sliding-window limiter.
-- The map is a function from keys to stored histories, the mutex makes each call one step, and the
-- clock's reading is an argument of `allow`. Times and durations are natural numbers of
-- nanoseconds, so that a time is never before Go's zero time. Spec has the log that the limiter is
-- compared with.
--
-- All recursion is structural but that of the encoded-words in Mime/Folding, which has fuel: the
-- length of the text is enough, as a theorem there shows. Machine integers: a policy's int32 and
-- int64 fields are signed integers that are only compared, the conversion of a recipient count to
-- int32 wraps as in Go, and times are not bounded.
--
-- Not modelled: the limiter in Redis, the start-up and the network side of the servers, the probe of
-- relays, the Graph driver, the OAuth cache, the rest of the controllers and the webhook. Much of
-- these is input and output or calls of libraries.
pub mod Common
pub mod Policy
pub mod RateLimit
pub mod Gateway
pub mod SmtpProxy
pub mod Credential
pub mod Mime
pub mod Rest
pub mod SmtpDriver
