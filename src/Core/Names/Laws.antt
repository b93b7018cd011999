-- ===== src/Core/Names/Laws.antt =====
-- include/puppet_master/core/types.h: when a name is valid, and the length and the characters of
-- texts that are put together.
use text.Mathlib.TextEquality.{eq_iff}
use Prim.Native.String.{count}
use Prim.Native.String.append as append_clauses
use Prim.Native.String.count as count_clauses
use puppet_master.Base.{suc, ◌+◌, ◌≤◌, ◌<◌, String, ◌<>◌, ◌=ₛ◌, true, false, ◌||◌, arith, ◌≡◌, refl}
use puppet_master.Core.Status.{is_ok}
use puppet_master.Core.Result.{value}
use puppet_master.Core.Names.{has_control, validate_name, create_topic_name}

pub count-append : (s t : String) → count (s <> t) ≡ count s + count t
count-append String.[] t = rw (append_clauses.nil t, count_clauses.nil) (omega arith)
count-append (String.◌∷◌ c s) t =
    rw
      (
        append_clauses.cons c s t,
        count_clauses.cons c (s <> t),
        count_clauses.cons c s,
        count-append s t,
      )
      (omega arith)

pub has_control-append : (s t : String) → has_control (s <> t) ≡ (has_control s || has_control t)
unfolding has_control
has_control-append String.[] t = rw (append_clauses.nil t) refl
has_control-append (String.◌∷◌ c s) t =
    rw (append_clauses.cons c s t, has_control, has_control-append s t) (ground arith)

-- A valid name: not empty, not too long, with no white space or control characters.
pub record IsName (s : String) : Type 0 where
  pub some_character : 0 < count s
  pub not_long : count s ≤ 255
  pub plain : has_control s ≡ false

empty-count : (s : String) → count s ≡ 0 → s ≡ ""
empty-count String.[] h = refl
empty-count (String.◌∷◌ c s) h =
    let h' : suc (count s) ≡ 0 = rw (count_clauses.cons c s) at h in absurd (omega (arith, h'))

count-empty : (s : String) → s ≡ "" → count s ≡ 0
count-empty s h = rw h count_clauses.nil

pub nonempty : (s : String) → 0 < count s → (s =ₛ "") ≡ false
nonempty s h = ground (arith, eq_iff s "", count-empty s)

pub IsName-validate_name : (kind s : String) → IsName s → is_ok (validate_name kind s) ≡ true
unfolding validate_name
IsName-validate_name kind s n = rw (nonempty s n.some_character) (ground (arith, n))

pub validate_name-IsName : (kind s : String) → is_ok (validate_name kind s) ≡ true → IsName s
unfolding validate_name
validate_name-IsName kind s h = record {
  some_character = ground (arith, eq_iff s "", empty-count s);
  not_long = ground arith;
  plain = ground arith;
}

pub create-IsName : (s : String) {n : String} → create_topic_name s ≡ value n → IsName s × (n ≡ s)
unfolding create_topic_name
create-IsName s e = (validate_name-IsName "topic name" s (ground arith), ground arith)

pub IsName-create : (s : String) → IsName s → create_topic_name s ≡ value s
unfolding create_topic_name
IsName-create s n = rw (IsName-validate_name "topic name" s n) refl
