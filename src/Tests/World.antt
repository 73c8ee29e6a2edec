-- ===== src/Tests/World.antt =====
-- Every library that the program calls, as functions on one value in memory: what the tests run on.
use mathlib.Core.List.{Memᴰ}
use go_service_bao_fight.Base.{
  ℕ, ◌+◌, zero, suc, ◌≡◌, refl, ap, String, Bool, true, false, ◌&&◌, ◌||◌, Option, none, some, List,
  [], ◌∷◌, arith, ◌==◌, ltb, str_eq, str_eq_iff, if◌then◌else◌, Bool-cases, inl, inr,
}
use go_service_bao_fight.Base.Json.{Json}
use go_service_bao_fight.Effects.{Env, Echo, Kafka, Create}
use go_service_bao_fight.Models.{Uuid, Session, Message}
use go_service_bao_fight.Models.Codec.{Codec, IsFaithful}
use go_service_bao_fight.Outside.{Host, Redis, Transactions, Chats}
use go_service_bao_fight.Service.MessageSave.{CreateInBatches}
use go_service_bao_fight.Service.Reactions.{ReactionDb}
use go_service_bao_fight.Rest.Sessions.{Sessions}
use go_service_bao_fight.Rest.Sessions.Table.{
  Rows, unexpired, IsSessionTable, IsTableApart, IsIssuer,
}
use go_service_bao_fight.Pipeline.{IsKeyed}

-- A number as a text of as many letters, and one more.
abbrev pub spell : ℕ → String
spell zero = String.◌∷◌ "u" String.[]
spell (suc n) = String.◌∷◌ "u" (spell n)

abbrev count : String → ℕ
count String.[] = 0
count (String.◌∷◌ c s) = suc (count s)

abbrev pub read_back : String → Option ℕ
read_back String.[] = none
read_back (String.◌∷◌ c s) = some (count s)

count-spell : (n : ℕ) → count (spell n) ≡ suc n
count-spell zero = refl
count-spell (suc n) = ap suc (count-spell n)

read_back-spell : (n : ℕ) → read_back (spell n) ≡ some n
read_back-spell zero = refl
read_back-spell (suc n) = ap some (count-spell n)

-- Byte slices are the JSON trees that they spell.
abbrev pub codec : Codec Json
codec = record {
  uuid_text = spell;
  parse_uuid = read_back;
  time_text = spell;
  parse_time = read_back;
  json_text = λ j. j;
  parse_json = some;
}

pub codec-IsFaithful : IsFaithful codec
codec-IsFaithful = record {
  uuid_back = read_back-spell;
  time_back = read_back-spell;
  json_back = λ j. refl;
}

-- `clock` makes times and ids, `sets` are the sets of Redis, `sessions` and `stored` the sessions by
-- their token and the ids of the messages in the database.
pub record Memory : Type 0 where
  pub clock : ℕ
  pub sets : String → String → Bool
  pub sessions : String → Option Session
  pub stored : Uuid → Bool

abbrev pub empty : Memory
empty = record { clock = 1; sets = λ k v. false; sessions = λ t. none; stored = λ u. false }

abbrev pub quiet : Memory → Env Memory Json
quiet w = record { world = w; log = [] }

abbrev later : Memory → Memory
later w = record w { clock = w.clock + 1 }

abbrev pub host : Host Memory
host = record { new_uuid = λ w. (w.clock, later w); now = λ w. (w.clock, later w) }

abbrev pub echo : Echo Memory
echo = record { json = λ status body w. (none, w) }

abbrev pub kafka : Kafka Memory Json
kafka = record { write = λ m w. (none, w) }

abbrev put : String → String → Bool → Memory → Memory
put k v b w = record w { sets = λ j x. if str_eq j k && str_eq x v then b else w.sets j x }

abbrev pub redis : Redis Memory
redis = record {
  s_add = λ k v w. put k v true w;
  s_rem = λ k v w. put k v false w;
  s_is_member = λ k v w. (w.sets k v, w);
  z_add = λ k score u w. w;
}

abbrev transactions : Transactions Memory
transactions = record { begin = λ w. w; commit = λ w. (none, w); rollback = λ w. w }

-- Nobody has a dialog yet, and every user is in every chat.
abbrev pub chats : Chats Memory
chats = record {
  find_dialog = λ a b w. (0, w);
  create_chat = λ r w. ((none, r), w);
  create_member = λ r w. ((none, r), w);
  count_members = λ chat user w. (1, w);
}

abbrev pub reaction_db : ReactionDb Memory
reaction_db = record {
  create_reactions = λ rs n w. (none, w);
  transactions = transactions;
  chats = chats;
}

-- The table of messages: a duplicate id is refused.
abbrev pub create_message : Create Memory Message
create_message m w = ((none, record m { sequence_number = w.clock }), later w)

abbrev any_stored : Memory → List Message → Bool
any_stored w [] = false
any_stored w (m ∷ ms) = w.stored m.id || any_stored w ms

abbrev adds : List Message → Uuid → Bool
adds [] u = false
adds (m ∷ ms) u = u == m.id || adds ms u

abbrev pub save_messages : CreateInBatches Memory Message
save_messages ms n w =
    if any_stored w ms
    then (some "duplicate key", w)
    else (none, record w { stored = λ u. w.stored u || adds ms u })

abbrev pub has : Memory → Uuid → Bool
has w u = w.stored u

any_stored_of_mem :
    (w : Memory) (m : Message) (ms : List Message)
    → Memᴰ m ms
    → w.stored m.id ≡ true
    → any_stored w ms ≡ true
any_stored_of_mem w m [] i h = elim i [ ]
any_stored_of_mem w m (x ∷ xs) (Memᴰ.head p) h = ground (arith, ap (λ y. w.stored y.id) p)
any_stored_of_mem w m (x ∷ xs) (Memᴰ.tail i) h = ground (arith, any_stored_of_mem w m xs i h)

pub save_messages-IsKeyed : IsKeyed save_messages has
save_messages-IsKeyed = record {
  duplicate = λ ms n m w i h. ("duplicate key", rw (any_stored_of_mem w m ms i h) refl);
  kept = λ ms n u w h. elim (Bool-cases (any_stored w ms)) [
    | inl e ↦ rw e h
    | inr e ↦ rw e (rw h refl)
  ];
}

-- The table of sessions.
abbrev keyed_row : String → Option Session → Option Session
keyed_row t none = none
keyed_row t (some s) = if str_eq t s.refresh_token then some s else none

abbrev pub row : Rows Memory
row w t = keyed_row t (w.sessions t)

abbrev remove : String → Memory → Memory
remove t w = record w { sessions = λ j. if str_eq j t then none else w.sessions j }

abbrev pub sessions : Sessions Memory
sessions = record {
  create = λ s w. (
    (none, s),
    record w { sessions = λ j. if str_eq j s.refresh_token then some s else w.sessions j },
  );
  find = λ t now w. (unexpired now (row w t), w);
  delete = λ s w. (none, remove s.refresh_token w);
  delete_token = λ t w. (none, remove t w);
}

keyed_row-keyed :
    (t : String) (s : Session) (o : Option Session) → keyed_row t o ≡ some s → s.refresh_token ≡ t
keyed_row-keyed t s none h = cc
keyed_row-keyed t s (some x) h = ground (arith, str_eq_iff t x.refresh_token)

row-remove :
    (t j : String) (w : Memory) → row (remove t w) j ≡ (if str_eq j t then none else row w j)
row-remove t j w = elim (Bool-cases (str_eq j t)) [ inl e ↦ rw e refl | inr e ↦ rw e refl ]

pub sessions-IsSessionTable : IsSessionTable sessions row
sessions-IsSessionTable = record {
  keyed = λ t s w h. keyed_row-keyed t s (w.sessions t) h;
  find_lem = λ t now w. refl;
  row-find = λ t now w j. refl;
  row-delete = λ s w j h. row-remove s.refresh_token j w;
  row-delete_token = λ t w j. row-remove t j w;
  row-create = λ s w j. elim (Bool-cases (str_eq j s.refresh_token)) [
    | inl e ↦ rw e (rw e refl)
    | inr e ↦ rw e refl
  ];
  created = λ s w. refl;
}

pub sessions-IsTableApart : IsTableApart host echo row
sessions-IsTableApart = record {
  new_uuid = λ w j. refl;
  now = λ w j. refl;
  json = λ status body w j. refl;
}

-- The ids below the clock have been made.
abbrev below : Option ℕ → ℕ → Bool
below none m = false
below (some n) m = ltb n m

abbrev pub issued : Memory → String → Bool
issued w t = below (read_back t) w.clock

fresh_below : (t : String) (n : ℕ) → below (read_back t) n ≡ true → str_eq t (spell n) ≡ false
fresh_below t n h = elim (Bool-cases (str_eq t (spell n))) [
  | inl e ↦
      absurd (ground (arith, h, ap read_back ((str_eq_iff t (spell n)).0 e), read_back-spell n))
  | inr e ↦ e
]

below_later : (o : Option ℕ) (n : ℕ) → below o n ≡ true → below o (n + 1) ≡ true
below_later none n h = h
below_later (some m) n h = ground (arith, h)

pub host-IsIssuer : IsIssuer host codec sessions issued
host-IsIssuer = record {
  fresh = λ t w h. fresh_below t w.clock h;
  made = λ w. rw (read_back-spell w.clock) (ground arith);
  issued-new_uuid = λ t w h. below_later (read_back t) w.clock h;
  issued-now = λ t w h. below_later (read_back t) w.clock h;
  issued-find = λ k now t w h. h;
  issued-delete = λ s t w h. h;
}
