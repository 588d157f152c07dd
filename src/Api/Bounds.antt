-- ===== src/Api/Bounds.antt =====
-- The sizes that `validateSpec` lets through.
use hyperwake_core.Prelude.{ℕ, String, ◌≤◌, ◌≡◌, Option, some, arith, ℤ, pos, negsuc, between}
use hyperwake_core.Json.{Json}
use hyperwake_core.Exec.{ok}
use hyperwake_core.Records.{Spec}
use hyperwake_core.Api.{validate_spec, integer_or, checked_spec, spec_name}

pub record IsAllowed (s : Spec) : Type 0 where
  pub vcpus : (1 ≤ s.vcpus) × (s.vcpus ≤ 8)
  pub memory : (1024 ≤ s.memory_mb) × (s.memory_mb ≤ 16384)
  pub disk : (16 ≤ s.disk_gb) × (s.disk_gb ≤ 1024)

-- The spec that a body asks for: its sizes where they are integers, the defaults where not.
pub record IsAsked (body : Json) (s : Spec) : Type 0 where
  pub vcpus : integer_or body "vcpus" 4 ≡ pos s.vcpus
  pub memory : integer_or body "memory_mb" 4096 ≡ pos s.memory_mb
  pub disk : integer_or body "disk_gb" 40 ≡ pos s.disk_gb

between-bounds :
    (lo hi : ℕ) (z : ℤ) {n : ℕ} → between lo hi z ≡ some n → (z ≡ pos n) × (lo ≤ n) × (n ≤ hi)
between-bounds lo hi (pos m) h = ground arith
between-bounds lo hi (negsuc m) h = ground arith

between_complete :
    (lo hi : ℕ) (z : ℤ) (n : ℕ) → z ≡ pos n → lo ≤ n → n ≤ hi → between lo hi z ≡ some n
between_complete lo hi (pos m) n e l h = ground arith
between_complete lo hi (negsuc m) n e l h = cc

checked_spec-sizes :
    (name : String) (v m d : Option ℕ) {s : Spec}
    → checked_spec name v m d ≡ ok s
    → (v ≡ some s.vcpus) × (m ≡ some s.memory_mb) × (d ≡ some s.disk_gb) × (name ≡ s.name)
unfolding checked_spec
checked_spec-sizes name v m d h = ground arith

-- Every accepted spec lies in the allowed ranges, and its sizes are those asked for: an integer in
-- the body is kept as it is, and anything else stands for the default.
pub validate_spec-IsAllowed :
    (now : ℕ) (body : Json) {s : Spec}
    → validate_spec now body ≡ ok s
    → IsAllowed s × IsAsked body s
unfolding validate_spec
validate_spec-IsAllowed now body h =
    let (v, m, d, _) = checked_spec-sizes _ _ _ _ h in
    let (ve, vl, vh) = between-bounds 1 8 (integer_or body "vcpus" 4) v in
    let (me, ml, mh) = between-bounds 1024 16384 (integer_or body "memory_mb" 4096) m in
    let (de, dl, dh) = between-bounds 16 1024 (integer_or body "disk_gb" 40) d in
    (
      record { vcpus = (vl, vh); memory = (ml, mh); disk = (dl, dh) },
      record { vcpus = ve; memory = me; disk = de },
    )

-- A body whose sizes lie in the allowed ranges is accepted, under the label that it gives.
validate_spec_complete :
    (now : ℕ) (body : Json) (s : Spec)
    → IsAllowed s
    → IsAsked body s
    → validate_spec now body ≡ ok (record s { name = spec_name now body })
unfolding validate_spec checked_spec
validate_spec_complete now body s a q = rw (
  between_complete 1 8 _ s.vcpus q.vcpus a.vcpus.0 a.vcpus.1,
  between_complete 1024 16384 _ s.memory_mb q.memory a.memory.0 a.memory.1,
  between_complete 16 1024 _ s.disk_gb q.disk a.disk.0 a.disk.1,
)
