-- ===== src/CacheStab/Replay.antt =====
-- internal/cachestab/replay.go: which blocks a session has compressed, and into what.
-- A *replaySession is a number that stands for its address: a handle keeps it when the map has
-- dropped the session. The mutex makes each method one step.
pub mod Life
pub mod Sessions
use headroom_go.Common.{
  ℕ, ◌+◌, ◌-◌, ◌==◌, ltb, leb, Bool, true, false, not, List, [], ◌∷◌, ◌++◌, Option, none, some,
  Bytes, codes, if◌then◌else◌, length,
}
use headroom_go.Common.Int.{ℤ, pos_part}
use headroom_go.Common.Maps
use headroom_go.Common.Maps.{Map}
use headroom_go.Json.{Json, member, elements}

abbrev pub default_replay_capacity : ℕ
default_replay_capacity = 256

abbrev pub replay_stale_turns : ℕ
replay_stale_turns = 3

pub record ReplayEntry : Type 0 where
  pub text : Bytes
  pub seen : ℕ

pub record ReplaySession : Type 0 where
  pub turn : ℕ
  pub sent_count : ℕ
  pub blocks : Map ReplayEntry

pub record ReplayState : Type 0 where
  pub capacity : ℕ
  pub heap : ℕ → ReplaySession
  -- the next address that no session has had
  pub fresh : ℕ
  pub sessions : Map ℕ
  pub order : List Bytes

pub record SessionReplay : Type 0 where
  pub sess : ℕ
  pub floor : ℕ
  pub first : Bool
  pub turn : ℕ

abbrev pub no_session : ReplaySession
no_session = record { turn = 0; sent_count = 0; blocks = [] }

-- A write through a pointer.
abbrev pub write : (ℕ → ReplaySession) → ℕ → ReplaySession → ℕ → ReplaySession
write heap el s el' = if el == el' then s else heap el'

-- The early return is for a cutoff that is not positive.
unfoldable pub sweep : ReplaySession → ReplaySession
sweep s =
    let cutoff = s.turn - replay_stale_turns in
    if cutoff == 0
    then s
    else record s { blocks = Maps.filter (λ e. not (ltb e.seen cutoff)) s.blocks }

unfoldable pub new_replay_state : ℤ → ReplayState
new_replay_state capacity = record {
  capacity = if pos_part capacity == 0 then default_replay_capacity else pos_part capacity;
  heap = λ _. no_session;
  fresh = 0;
  sessions = [];
  order = [];
}

unfoldable pub len : ReplayState → ℕ
len st = length st.sessions

-- gjson's "messages.#", as an int.
unfoldable pub message_count : Option Json → ℕ
message_count root = elim (elements (member (codes "messages") root)) [
  | none ↦ 0
  | some msgs ↦ length msgs
]

-- The oldest session makes room.
evict : ℕ → Map ℕ → List Bytes → Map ℕ × List Bytes
evict capacity sessions [] = (sessions, [])
evict capacity sessions (oldest ∷ order) =
    if leb capacity (length (oldest ∷ order))
    then (Maps.remove sessions oldest, order)
    else (sessions, oldest ∷ order)

-- The session of a key, made if it is not there.
unfoldable pub admit : ReplayState → Bytes → ReplayState × ℕ × Bool
unfolding evict
admit st key = elim (Maps.get st.sessions key) [
  | some el ↦ (st, el, true)
  | none ↦
      let (sessions, order) = evict st.capacity st.sessions st.order in
      (
        record st {
          heap = write st.heap st.fresh no_session;
          fresh = st.fresh + 1;
          sessions = Maps.put sessions key st.fresh;
          order = order ++ (key ∷ []);
        },
        st.fresh,
        false,
      )
]

-- turn++ and the sweep.
unfoldable pub next_turn : ReplaySession → ReplaySession
next_turn s = sweep (record s { turn = s.turn + 1 })

unfoldable pub begin : ReplayState → Bytes → Option Json → SessionReplay × ReplayState
begin st key root =
    let (st', el, seen) = admit st key in
    let s = next_turn (st'.heap el) in
    (
      record { sess = el; floor = s.sent_count; first = not seen; turn = s.turn },
      record st' { heap = write st'.heap el (record s { sent_count = message_count root }) },
    )

-- A hit marks the entry as seen in the handle's turn.
unfoldable pub lookup : SessionReplay → Bytes → ReplayState → Option Bytes × ReplayState
lookup h hash st = elim (Maps.get (st.heap h.sess).blocks hash) [
  | none ↦ (none, st)
  | some e ↦ (
    some e.text,
    record st {
      heap = write st.heap h.sess (record (st.heap h.sess) {
        blocks = Maps.put (st.heap h.sess).blocks hash (record e { seen = h.turn });
      });
    },
  )
]

unfoldable pub remember : SessionReplay → Bytes → Bytes → ReplayState → ReplayState
remember h hash compressed st = record st {
  heap = write st.heap h.sess (record (st.heap h.sess) {
    blocks = Maps.put (st.heap h.sess).blocks hash (record { text = compressed; seen = h.turn });
  });
}

unfoldable pub forget : SessionReplay → Bytes → ReplayState → ReplayState
forget h hash st = record st {
  heap =
      write st.heap h.sess
        (record (st.heap h.sess) { blocks = Maps.remove (st.heap h.sess).blocks hash });
}

unfoldable pub entry_count : SessionReplay → ReplayState → ℕ
entry_count h st = length (st.heap h.sess).blocks
