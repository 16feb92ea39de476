-- ===== src/Affine/Progress.antt =====
-- When s2r_affine_build and s2r_affine_build_signed of include/smart2raw.h succeed.
