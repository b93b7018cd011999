-- ===== src/Transport/InMemory/Channel/Gone.antt =====
-- Topics that their readers own.
use puppet_master.Base.{ℕ, List, [], ◌∷◌, Bool, false, ◌==◌, ◌||◌}
use puppet_master.Transport.InMemory.Channel.{Slot, TopicChannel, expired, drop_reader}

-- Every live reader of the channel is one of these.
unfoldable pub drop_all : List ℕ → List Slot → List Slot
drop_all [] ss = ss
drop_all (id ∷ ids) ss = drop_all ids (drop_reader id ss)

abbrev pub named : List ℕ → ℕ → Bool
named [] id = false
named (i ∷ is) id = i == id || named is id

-- The reader is destroyed, or is one of those named.
abbrev pub leaves : List ℕ → Slot → Bool
leaves ids s = expired s || named ids s.reader

-- The channel after readers are destroyed.
abbrev pub without : List ℕ → TopicChannel → TopicChannel
without ids c = record c { readers = drop_all ids c.readers }
