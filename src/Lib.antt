-- ===== src/Lib.antt =====
-- Verification of the SensePro+ web client, the TypeScript sources under apps/web/src.
--
-- SensePro+ takes attendance, watches exams and measures the engagement of a class from a camera.
-- The client streams frames to the backend and shows what comes back; it also decides which page
-- a user may open and summarises the tables of the database. The parts, and where they are
-- modelled:
--
-- - Auth: who is signed in and which page renders. Auth/Resolve and Auth/Guard are
--   `waitForClerk`, `resolveAuth` and `guardRoute` of apps/web/src/lib/auth-guard.ts, Auth/Roles
--   its tables, Auth/Token the reading of a JWT's payload, and Auth/Views `extractSupabaseRole`
--   and `useAuth` of apps/web/src/lib/auth.tsx, `toSessionUser` of
--   apps/web/src/hooks/use-session-user.ts and `finish` of apps/web/src/routes/auth.callback.tsx.
--   Auth/SelfRole are the roles that apps/web/src/routes/login.tsx and no-role.tsx write, and
--   Auth/Navigation the entries of apps/web/src/components/sp/AppShell.tsx with the guards of
--   the routes that they open.
-- - Capture: the page apps/web/src/routes/capture.tsx. Capture/Types are the messages of its
--   socket, Capture/Roster the session roster (`updateExamCandidates`, `markStudentPresent`),
--   Capture/Page the state of the page, Capture/Messages `handleWsMessage`, which uses both,
--   Capture/Socket the life of the connection (`openSocket`, its handlers, `startSending`,
--   `start`, `teardown`) as steps on a state, and Capture/Worker the end of an RTSP session
--   (`closeSessionRecord`, `endRtspSession`), and Capture/Ending `saveAndEnd`, with the race of
--   acknowledgement and timeout in Capture/Ending/Race. Capture/Starting is how a session starts
--   (`start`, `startRtspSession`, `resolveWsUrl`), and Capture/RtspPoll the poll of an RTSP
--   session's status; Capture/Feed is the token of its feed (`refreshFeedToken`) and the reading
--   of presence from the database.
-- - LiveRoster: apps/web/src/lib/data/roster.ts and the state of
--   apps/web/src/routes/_shell.teacher.tsx that it feeds.
-- - Engagement: `summariseAggregates` and `summariesBySession` of apps/web/src/lib/data/live.ts,
--   and `latestWindow` of apps/web/src/lib/data/engagement.ts.
-- - Sessions: `fetchManagementSessions` and `fetchSessionsLive` of apps/web/src/lib/data/live.ts,
--   which use the queries of SessionTables and the summaries of Engagement.
-- - Trends: `fetchTrendSeries` of apps/web/src/lib/data/live.ts, which uses the queries of
--   SessionTables, and in Trends/Keys `localDateKey` with the labels that are read from it.
-- - AbsenteeQr: the panel apps/web/src/components/sp/AbsenteeQR.tsx that mints rotating codes, and
--   ClaimPage: the page apps/web/src/routes/claim.tsx that a student's phone opens from a code.
-- - Enrollment: apps/web/src/routes/_shell.enrollment.tsx, with the upload of a video in
--   Enrollment/Slot.
-- - Admin: the handlers of apps/web/src/routes/_shell.admin.tsx. Admin/Requests are the requests
--   of role-requests.ts, settings.ts, deletion.ts and notify.ts in apps/web/src/lib/data,
--   Admin/Tables the admin's tables of live.ts, Admin/Chain the marks of the audit table and
--   Admin/Actions the buttons of a deletion request.
-- - Api: apps/web/src/lib/api.ts, Camera: apps/web/src/lib/camera.ts, and Password:
--   apps/web/src/lib/password-rules.ts.
-- - MyAttendance: apps/web/src/lib/data/my-attendance.ts.
-- - Proctor: apps/web/src/lib/data/proctor.ts and the queue of
--   apps/web/src/components/ProctorReviewPanel.tsx; ProctorPage: the page
--   apps/web/src/routes/_shell.proctor.tsx, with its choice of an examination in
--   ProctorPage/Chosen and its queue over events in ProctorPage/Queue.
-- - MePage: the page apps/web/src/routes/_shell.me.tsx, with its counts in MePage/Types and its
--   request for deletion in MePage/Deletion.
-- - NoRole: the page apps/web/src/routes/no-role.tsx, and in NoRole/Granted where it leads.
-- - Management: the refresh and the comparison of apps/web/src/routes/_shell.management.tsx.
-- - StartPage: `launch` of apps/web/src/routes/_shell.start.tsx.
-- - Theme: apps/web/src/lib/theme.tsx.
-- - Http: what a request or a query of the database client can come to.
-- - Prelude: the names that all share, with JavaScript's `Map` as an association list
--   (Prelude/Dict), grouping (Prelude/Groups), the loops that update a map (Prelude/Upsert) and
--   sorting (Prelude/Sort).
--
-- What is a parameter: Clerk and its user over time, the Supabase session, the decoder of JSON,
-- the answers of the backend and of the database client, `Date.parse`, local days and the order
-- of texts, the clock, and the eased position of a box. Indices, coverages, scores and
-- coordinates are natural numbers in a fixed unit; a mean is the exact fraction that the source
-- divides out; times are milliseconds. A message of the socket has the fields of its declared
-- type: the `catch` around a malformed one is not modelled. Where a successful
-- answer may have a body that cannot be decoded (AbsenteeQr, ClaimPage), its fields are optional and
-- a deadline that is not a number has none.
--
-- Loops: `waitForClerk` is on fuel, with 85 rounds, which is one read for every 30 ms below 2500
-- ms and one after the last; `waitForApiReady` is on fuel, with one round more than it has
-- milliseconds, which is enough where the pause is not 0; the wait for the RTSP worker has the
-- source's 20 attempts. The other loops are structural.
--
-- What is not modelled: markup and drawing, the settings of the camera, the shared promises of the
-- authorization before a session starts, the remaining pages and data modules, and the backend.
pub mod Prelude
pub mod Engagement
pub mod Auth
pub mod Http
pub mod Capture
pub mod LiveRoster
pub mod SessionTables
pub mod Sessions
pub mod Trends
pub mod MyAttendance
pub mod Proctor
pub mod AbsenteeQr
pub mod ClaimPage
pub mod Enrollment
pub mod Admin
pub mod Api
pub mod Camera
pub mod Management
pub mod StartPage
pub mod Theme
pub mod ProctorPage
pub mod MePage
pub mod NoRole
pub mod Password
