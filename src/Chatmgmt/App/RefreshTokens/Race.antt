-- ===== src/Chatmgmt/App/RefreshTokens/Race.antt =====
-- Two refreshes at once with the same token: the update of the row has no condition.
