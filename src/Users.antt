-- ===== src/Users.antt =====
-- src/modules/users: the life of a refresh token.
pub mod RefreshTokens
pub mod RefreshLaws
mod Tests
