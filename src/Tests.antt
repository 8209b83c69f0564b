-- ===== src/Tests.antt =====
-- Tests of the definitions on concrete inputs, and the theorems at inputs that meet their hypotheses.
mod Ccr
mod Splice
mod Fixtures
mod CacheControl
mod CacheStab
mod Pipeline
mod LiveZone
mod Volatile
mod SemCache
mod Resize
mod TagProtect
mod Diff
mod ReadProtect
mod Offloads
mod Reformats
mod Log
