-- ===== src/Ranking.antt =====
-- nextendo-nex/ranking_board.go and ranking.go: the scores of tournaments and their boards, and the
-- data that players publish about themselves.
pub mod Board
pub mod Best
pub mod Pages
pub mod Common
pub mod CommonRules
