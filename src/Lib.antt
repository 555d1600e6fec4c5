-- ===== src/Lib.antt =====
-- Verification of the assessment service, a multi-college platform for coding exams: the API in
-- assessment-api (Node, MongoDB, Redis, RabbitMQ, Stripe), whose services own the rules.
--
-- The parts and how they interact. A student starts an attempt at a published assessment, hands in
-- solutions of its problems, and submits the attempt; a solution passes the gate of the assessment,
-- two burst quotas and the plan of the college, is stored as a pending submission, and is sent to the
-- judge's queue; the judge's result is read through a cache, redacted for students, and scored when
-- the attempt is viewed or submitted. Faculty grant grace time, resolve challenges, lock assessments
-- and rejudge. Plans are bought through Stripe.
--
--   Models        the schemas of assessment-api/models/*.mjs, a record each
--   Store         Store.Docs: collections as lists; Store.Effects: the world and requests on it;
--                 Store.Repos: assessment-api/src/repositories and audit.service.js
--   Attempts      assessment-api/src/services/assessments.service.js: Expiry (getExpirationTime,
--                 isAttemptExpired, collegeScopeFor), Score (recalculateAttemptScore), Start
--                 (startAssessment), Submit (submitAssessment, getAssessmentAttemptById), Events
--                 (logAntiCheatingEvent, saveDraft, addGraceTime, raiseChallenge, resolveChallenge);
--                 Calls, Cases, Evolution, Kept and History treat histories of such requests, Outcomes
--                 the branches, Unique the index on attempts, Tenancy the colleges
--   Assessments   the administration in the same service: Payload (validateAssessmentPayload), Manage
--                 (create, update, delete, lock, unlock, announcements), Listing (the paged lists)
--   Submissions   assessment-api/src/services/submissions.service.js: Gate
--                 (validateAssessmentSubmission), Sanitize (sanitizeResultDetails,
--                 sanitizeSubmissionForStudent), Judge (the judge's message, and evaluation.service.js),
--                 Intake (submitSolution), Access (getSubmissionById and cache.service.js), Rejudge
--   Quota         assessment-api/src/services/quota.service.js over an interface of Redis
--   Billing       assessment-api/src/config/plans.js, assessment-api/src/services/billing.service.js;
--                 Seats is assertSeatCapacity of assessment-api/src/services/auth.service.js
--   Types         assessment-api/src/utils/typeValidator.mjs: isValidType in the module itself, Data
--                 (validateData); Tables and Mapping are mapType of frontend/src/utils/
--                 typeValidator.js; Grammar is the grammar they are held against, Scan what the regex
--                 finds, Kinds, Spelling, Printing and Inhabits the proofs
--   Accounts      assessment-api/src/services/auth.service.js: Words (its string methods), Register,
--                 Login, Reset (resetUserPassword), Batch (bulkRegister); Registered, Rollback,
--                 Checked, Accepted and Capacity prove what they do
--   Problems      assessment-api/src/services/problems.service.js: the views of a problem and
--                 runProblem; Payload (normalizeProblemPayload, validateProblemPayload), Create
--                 (createProblem, updateProblem); Secret proves what a student learns of hidden test
--                 cases, Stored what a stored problem has
--   Questions     assessment-api/src/services/questions.service.js: listing and reading in the module
--                 itself, Select (selectQuestions), Manage (create, update, delete); Rights and Picked
--                 are proofs
--   Arventiq      assessment-api/src/services/arventiq.service.js: Sync (syncProblem, with
--                 assessment-api/src/config/arventiqLanguages.js), Submit (submitArventiqSolution),
--                 Verdict (the verdicts and the gate of results); Shape, Saved and Synced are proofs
--   Reports       getAssessmentAttendance and getAssessmentAnalytics of assessment-api/src/services/
--                 assessments.service.js: attendance in the module itself, Overall, Sections and Solved
--                 the three parts of the Analytics; Attended, Bounds, Keys, Waiting, Tallied and
--                 Distinct hold them against counts
--   Colleges      assessment-api/src/services/college.service.js; Slugs, Free and Founded prove what
--                 slugify, uniqueSlug and signup do
--   System        assessment-api/src/services/system.service.js: settings, backup and restoration
--   Http          assessment-api/src/middleware, the guard against cross-site requests of
--                 assessment-api/src/app.js, and in Routes the guards of assessment-api/src/routes;
--                 Service is arventiq.mjs; Guards, Guarded and Single are proofs
--   Shim          assessment-api/src/services/codeAssessShim.service.js, the judge's HTTP endpoint an
--                 argument
--   Samples       the data that the modules of tests share
--
-- How the code is modelled. A request is a function from the world to a result and a world: what
-- it wrote before it raised stays written, as in the code, which uses no transaction. A
-- collection is a list of documents; findOne and findOneAndUpdate by `_id` mean the first
-- document with that id, a populated reference is null once its document is gone, and the unique
-- index on the assessment and the student of an attempt makes a second creation fail with error
-- 11000. HttpError, TypeError, CastError, ValidationError and the duplicate key are values of
-- `Failure`. Ids are numbers, times are whole numbers of milliseconds of either sign, texts are
-- compared as wholes.
--
-- Parameters. The clock, new ids, the shuffle of the problems, what other requests do between a
-- check and a write (in `startAssessment`), how RabbitMQ and whether Redis answer, the price of
-- the paid plan and the start of the month are arguments, and so are bcrypt's hash and
-- comparison, the signing of a token at a moment, the failures of single writes and of the
-- rollback in `bulkRegister` and of the steps that make Arventiq's account, the database's text
-- match and its random sample, the judge's answer to a run, the deep validation of a problem,
-- what `jwt.verify` makes of a token, what `insertMany` stores of a backup, and the JSON text of
-- inputs. Redis is a record of INCR and EXPIRE with their documented behaviour. An entry of the
-- cache that is older than its hour is no longer in the world.
--
-- Fuel. The recursion of typeValidator.mjs is on the inner type, which is no structural part of
-- the text: it spends a unit of fuel for a level, and starts with one more than the text has
-- characters, which is enough since an inner type is shorter. `uniqueSlug` asks for one candidate
-- more than there are colleges: one of so many is free, and the search is proved to find the
-- first. Every other loop of the modelled code runs over a list that it does not change, and is
-- structural recursion.
--
-- Texts. Where the code looks into a text it is a list of character codes (Types, Colleges) or
-- walked character by character (Accounts.Words, Http); of the letters with a small form,
-- `toLowerCase` has the ASCII ones.
--
-- Numbers. Durations and the scores of problems are whole numbers, though the code admits any
-- positive number. Averages and rates are kept as the fractions that `toFixed` rounds.
--
-- Dates. A date of an assessment's payload may be unreadable; Mongoose, which cannot cast it,
-- then raises. Every other field of a body is missing or of the type that the schema asks for,
-- but for the fields of a registration.
--
-- Not modelled: controllers, rate limits, CORS and the validators of request bodies, the checkout
-- and portal sessions of Stripe, listing accounts, a user's own submissions and analytics, the
-- statistics, deletion and previews of problems, Arventiq's trial runs, the React pages, and the
-- Go judge, which is met only as a queue of messages and as an HTTP endpoint. Concurrent requests
-- are interleaved only where `startAssessment` says so; otherwise a request runs as a whole.
pub mod Base
pub mod Models
pub mod Types
pub mod Accounts
pub mod Problems
pub mod Questions
pub mod Store
pub mod Attempts
pub mod Submissions
pub mod Samples
pub mod Quota
pub mod Billing
pub mod Assessments
pub mod Arventiq
pub mod Shim
pub mod System
pub mod Http
pub mod Colleges
pub mod Reports
