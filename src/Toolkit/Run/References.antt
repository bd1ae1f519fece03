-- ===== src/Toolkit/Run/References.antt =====
-- The skills that the agents of a validated repository name.
use orochi.Text.{Text}
