-- ===== src/Lib.antt =====
-- Garba partner: members find a partner for garba events and buy passes for them. This library
-- models these parts of the API server (apps/api): the sale of event passes with its payments, the
-- connections between members (interests, matches, blocks), chat, notifications, sign-in with its
-- sessions, sanctions, reports and their moderation, the ranking of candidates, keyset pagination,
-- and the sliding-window rate limiter.
--
-- Parts and files:
--   * Prelude, Text, Table: shared names, text as code units, and a database table as the list of
--     its rows with the queries that the services make through the models (find one, update where,
--     count, sum). Table.Keyed is about a primary key, Table.Counts and Table.Cover about updates
--     and counts.
--   * Api: the error codes with their HTTP status (packages/shared/src/errors/error-codes.ts), and
--     a handler as a function of the database that returns a result or an error beside the
--     database that it leaves; `transaction` undoes what its body wrote where the body throws.
--   * Payments: apps/api/src/modules/payments. Model has the rows and the types of the provider,
--     Seats is pass-availability.ts, and the others are payments.service.ts: Checkout is
--     createOrder and attachRazorpayOrder, Finalize is the transaction of finalize, Service is
--     finalize around it, verify, getOrder and getBooking, Refunds is applyRefund, startRefund,
--     onRefundWebhook and refundBooking, Webhook is handleWebhook, Expiry is expireOrders.
--     Checkout holds seats by an unpaid order; finalize turns a captured payment into a booking,
--     or into a refund where the order cannot be honoured; verify, the webhook and the expiry job
--     all reach the database through finalize. Steps is the system as a relation: one step for
--     each transaction, and time passing between steps. The modules called Runs show the handlers
--     as sequences of such steps, and Requests has the handlers one after another.
--   * Connections: apps/api/src/modules/interests and
--     apps/api/src/modules/safety/blocks.service.ts. Model has the rows, Pairs is connections.ts
--     and canonicalPair, Interests is interests.service.ts (Send: send; Answers: accept, reject,
--     withdraw), Matches is unmatch of matches.service.ts, Blocks is block and unblock, with
--     isBlockedEitherWay of sanctions.ts. Steps is the relation of the committed steps of these
--     handlers, Requests has the handlers one after another.
--   * Discovery.Matching: apps/api/src/modules/discovery/matching.ts, the score and highlights of
--     a candidate and mutual gender preference.
--   * Profiles: packages/shared/src/utils/profile-completion.ts, how complete a profile is;
--     Account is about its percentage and status.
--   * Limiter: apps/api/src/lib/sliding-window.ts, the rate limiter of requests and sockets.
--   * Members: Sessions is apps/api/src/modules/auth/auth.service.ts (loginWithPhoneToken,
--     refresh, logout) and apps/api/src/middlewares/authenticate.ts (resolveMemberSession,
--     isMemberSessionActive); Sanctions and Lifting are apps/api/src/modules/safety/sanctions.ts
--     (Sanctions: setAccountStatus, hideFromDiscovery, applySanction; Lifting: liftSanction,
--     applySanctionEffects, expireSanctions). A sanction revokes sessions and ends connections.
--   * Chat: apps/api/src/modules/chat/chat.service.ts. Rules is authorize and assertCanSend, Send
--     is send with the limiter of the hub, Reading is markRead, messages, unreadTotal and the
--     unread counts of chatRows. Its database holds that of Members, which holds that of
--     Connections, so that blocks and sanctions meet the messages.
--   * Notifications: apps/api/src/modules/notifications/notifications.service.ts (Notify: notify,
--     push; Inbox: the list, reading and removing; Preferences: the switches). It has a database
--     of its own: the services call it after their commit.
--   * Pagination: apps/api/src/lib/pagination.ts and the lists that use it. Walk is a client that
--     follows the cursors, Orders has the orders of the lists, Cursors the texts.
--   * Moderation: Create and Evidence are apps/api/src/modules/safety/reports.service.ts,
--     Suspicious is apps/api/src/modules/safety/suspicious-activity.service.ts, Resolve is
--     apps/api/src/modules/admin/reports/admin-reports.service.ts; Requests has them one after
--     another. Its database holds that of Chat: a report copies messages and ends connections, and
--     its resolution imposes sanctions.
--   * The modules called Tests below the parts run the model on concrete data.
--
-- How the code is represented:
--   * A transaction that locks the rows it decides on (or the pair of members) is one atomic step;
--     a handler is the composition of its transactions and of its other reads and writes.
--   * A UUID is a natural number, compared as the source compares lower-case texts; new rows take
--     their id from the counter `next_id`. A date is a number of milliseconds, though now() in SQL
--     is finer. Amounts are natural numbers of paise; a difference stops at 0 only where the
--     source has Math.max(0, ...), or where the amount refunded was cut to the amount paid before.
--   * Loops run over finite lists (due orders, payments of an order, requests), by recursion on
--     the list; no fuel is needed. The expiry job of orders takes at most 100 and that of
--     sanctions at most 200, as the source does. The walk over pages has fuel, and answers none
--     where it runs out before a page without a cursor; pages with room for all rows are enough.
--   * The columns of a user row stand in two rows, Account and Connections.Model.User. The clock
--     is read once in a request or a transaction.
--   * A unique constraint of the database is modelled where the code looks for the row before it
--     inserts one. Those on the code and the payment of a booking, on which its insertion can
--     fail, are not.
--   * In Payments, notifications are an outbox, what members' open apps and the safety log are
--     told is the list `signals`, and the admin audit log is a list. Other logging is left out.
--
-- Parameters, each an argument of what uses it: the payment provider (any functions, each call may
-- fail), JSON.parse and SHA-256 of the webhook, the random code of a booking, and whether two
-- members are eligible for one another (discovery.isEligible); the verified phone, the tokens and
-- their hashes at sign-in; the two patterns that messages are searched for
-- (packages/shared/src/utils/text.ts); JSON, base64url, Date.parse and the pattern of a UUID in
-- cursors. Of JSON and base64url it is assumed that they read back what they wrote (base64url:
-- JSON texts); nothing else is assumed of any.
--
-- Not modelled: the candidate query of discovery (SQL text), the delivery of notifications by SMS
-- and WhatsApp, the profile service, sign-in of admins, the other admin modules, the HTTP layer,
-- migrations, and the web and admin apps; of payments and connections the lists and views; of a
-- block the removal of old notifications and the detection after it; of chat the summaries of the
-- list; of reports the detail views, and of audit entries most of their metadata.
pub mod Prelude
pub mod Text
pub mod Table
pub mod Api
pub mod Payments
pub mod Connections
pub mod Discovery
pub mod Limiter
pub mod Profiles
pub mod Pagination
pub mod Members
pub mod Chat
pub mod Notifications
pub mod Moderation
