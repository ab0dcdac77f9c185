-- ===== src/Checkers/DialFailure.antt =====
-- The checker that hears of a failed dial.
