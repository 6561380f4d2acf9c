-- ===== src/Examples/Redis.antt =====
-- A cache that is a list of entries with their deadlines.
use ai_saga.Common.{
  ℕ, ◌+◌, ◌*◌, ◌≤◌, ◌<◌, ◌≡◌, ◌≢◌, refl, ltb, if◌then◌else◌, Option, none, some, List, [], ◌∷◌,
  Text, text_eqb, text_eqb_iff, arith,
}
use ai_saga.Auth.Services.{CacheValue, Redis}

abbrev pub Entries : Type 0
Entries = List (Text × CacheValue × ℕ)

abbrev pub read_entry : ℕ → Text → Entries → Option CacheValue
read_entry t k [] = none
read_entry t k ((j, v, end) ∷ c) =
    let rest = read_entry t k c in
    if text_eqb j k then (if ltb t end then some v else none) else rest

abbrev pub remove_entry : Text → Entries → Entries
remove_entry k [] = []
remove_entry k ((j, v, end) ∷ c) =
    let rest = remove_entry k c in if text_eqb j k then rest else (j, v, end) ∷ rest

abbrev pub write_entry : ℕ → ℕ → Text → CacheValue → Entries → Entries
write_entry now seconds k v c = (k, v, now + seconds * 1000000) ∷ remove_entry k c

pub read_entry-remove_self :
    (t : ℕ) (k : Text) (c : Entries) → read_entry t k (remove_entry k c) ≡ none
read_entry-remove_self t k [] = refl
read_entry-remove_self t k ((j, v, end) ∷ c) = ground (arith, read_entry-remove_self t k c)

pub read_entry-remove_other :
    (t : ℕ) (j k : Text) (c : Entries)
    → j ≢ k
    → read_entry t j (remove_entry k c) ≡ read_entry t j c
read_entry-remove_other t j k [] h = refl
read_entry-remove_other t j k ((i, v, end) ∷ c) h =
    ground (arith, text_eqb_iff i k, text_eqb_iff i j, read_entry-remove_other t j k c)

pub read_entry-write_self :
    (now later seconds : ℕ) (k : Text) (v : CacheValue) (c : Entries)
    → now ≤ later
    → later < now + seconds * 1000000
    → read_entry later k (write_entry now seconds k v c) ≡ some v
read_entry-write_self now later seconds k v c h l = ground (arith, text_eqb_iff k k)

pub read_entry-write_other :
    (t now seconds : ℕ) (j k : Text) (v : CacheValue) (c : Entries)
    → j ≢ k
    → read_entry t j (write_entry now seconds k v c) ≡ read_entry t j c
read_entry-write_other t now seconds j k v c h =
    ground (arith, text_eqb_iff k j, read_entry-remove_other t j k c)

abbrev pub redis : Redis
redis = record {
  Cache = Entries;
  read = read_entry;
  write = write_entry;
  remove = remove_entry;
  read-write_self = read_entry-write_self;
  read-write_other = read_entry-write_other;
  read-remove_self = read_entry-remove_self;
  read-remove_other = read_entry-remove_other;
}
