-- ===== src/Handoffs.antt =====
-- Contact hand-offs: the slots and the requests of internal/db/queries_replacements.go with
-- AddEntityContact and AddResourceContact, the handlers of internal/handlers/replacements.go, and
-- the invites of internal/handlers/invites.go and internal/handlers/auth.go (GetInvite,
-- AcceptInvite). A handler takes the session that RequireAuth admitted.
pub mod Slots
pub mod Replacements
pub mod Invites
