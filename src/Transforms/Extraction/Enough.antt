-- ===== src/Transforms/Extraction/Enough.antt =====
-- A user of a vector is replaced by `SplatOpConversion`, with as much fuel as its copies need.
