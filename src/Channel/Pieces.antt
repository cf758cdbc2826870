-- ===== src/Channel/Pieces.antt =====
-- yamux_stream_write: how the data is cut up.
use c_libp2p.Base.{ℕ, zero, suc, ◌≤◌, ◌<◌, ◌≡◌, ◌≢◌, refl, sym, ap, ap₂, ◌∙◌, List, [], ◌∷◌, ◌++◌}
use c_libp2p.Base.{length, take, drop, min, arith, All, append_assoc, append-nil, take-append-drop}
use c_libp2p.Base.{
  length-take, length-drop, Bool, true, false, ◌==◌, be16, be32, pos, Option, subst,
}
use c_libp2p.Base.{if_true, if_false}
use c_libp2p.Transport.{ok, stuck}
use c_libp2p.Channel.{
  Parent, Channel, StreamState, inited, syn_sent, syn_recv, est, closing, closed,
}
use c_libp2p.Channel.{get_flags, Link, piece, write_rounds, channel_write}

-- A stream below that takes every message, and keeps what it took.
pub record Accepting (p : Parent) : Type 0 where
  pub written : p.State → List (List ℕ)
  pub takes : (bytes : List ℕ) (s : p.State) → (p.write bytes s).0 ≡ true
  pub keeps :
      (bytes : List ℕ) (s : p.State) → written (p.write bytes s).1 ≡ written s ++ (bytes ∷ [])

abbrev pub joined : List (List ℕ) → List ℕ
joined [] = []
joined (b ∷ bs) = b ++ joined bs

-- The messages for the pieces of some data: the first one has the flags. A frame of data has the
-- version 0, the type 0, its flags, the id and the length of its data.
abbrev pub messages : Parent → ℕ → ℕ → List (List ℕ) → List (List ℕ)
messages p flags id [] = []
messages p flags id (b ∷ bs) =
    (0 ∷ 0 ∷ (be16 flags ++ (be32 id ++ be32 (length b))) ++ b) ∷ messages p 0 id bs

-- what a channel owes its peer: the SYN while it is new, the ACK once it has had a SYN
abbrev pub owed : StreamState → ℕ
owed inited = 1
owed syn_recv = 2
owed syn_sent = 0
owed est = 0
owed closing = 0
owed closed = 0

owed_parts :
    (id window : ℕ) (s : StreamState) (shut : Bool) (o : Option StreamState)
    → (get_flags (record {
      channel = id;
      window_size = window;
      state = s;
      is_closed = shut;
      session_state = o;
    })).0
      ≡ owed s
unfolding get_flags
owed_parts id window inited shut o = refl
owed_parts id window syn_sent shut o = refl
owed_parts id window syn_recv shut o = refl
owed_parts id window est shut o = refl
owed_parts id window closing shut o = refl
owed_parts id window closed shut o = refl

get_flags-owed : (c : Channel) → (get_flags c).0 ≡ owed c.state
get_flags-owed c = owed_parts c.channel c.window_size c.state c.is_closed c.session_state

-- the frames of no data, one for each round
abbrev pub empty_pieces : ℕ → List (List ℕ)
empty_pieces zero = []
empty_pieces (suc n) = [] ∷ empty_pieces n

-- what a call of get_flags leaves: no flags for the next frame
AfterFlags : Channel → Channel → Type 0
AfterFlags c c' =
    ((get_flags c').0 ≡ 0) × (c'.channel ≡ c.channel) × (c'.window_size ≡ c.window_size)

AfterFlags-parts :
    (id window : ℕ) (s : StreamState) (shut : Bool) (o : Option StreamState)
    → let c : Channel = record {
      channel = id;
      window_size = window;
      state = s;
      is_closed = shut;
      session_state = o;
    } in
      AfterFlags c (get_flags c).1
unfolding get_flags AfterFlags
AfterFlags-parts id window inited shut o = (refl, refl, refl)
AfterFlags-parts id window syn_sent shut o = (refl, refl, refl)
AfterFlags-parts id window syn_recv shut o = (refl, refl, refl)
AfterFlags-parts id window est shut o = (refl, refl, refl)
AfterFlags-parts id window closing shut o = (refl, refl, refl)
AfterFlags-parts id window closed shut o = (refl, refl, refl)

get_flags-get_flags :
    (c : Channel)
    → ((get_flags (get_flags c).1).0 ≡ 0)
      × ((get_flags c).1.channel ≡ c.channel)
      × ((get_flags c).1.window_size ≡ c.window_size)
unfolding AfterFlags
get_flags-get_flags c = AfterFlags-parts c.channel c.window_size c.state c.is_closed c.session_state

not_empty : (b : ℕ) (bytes : List ℕ) → (length (b ∷ bytes) == 0) ≡ false
not_empty b bytes = ground arith

-- one round of the loop: how much it takes, its message, and what is then left
abbrev advance : (p : Parent) → List ℕ → Link p → ℕ
advance p bytes l = min (length bytes) l.ctx.window_size

abbrev message_of : (p : Parent) → List ℕ → Link p → List ℕ
message_of p bytes l = piece p (get_flags l.ctx).0 l.ctx.channel (take (advance p bytes l) bytes)

abbrev after_message : (p : Parent) → List ℕ → Link p → Link p
after_message p bytes l = record {
  parent = (p.write (message_of p bytes l) l.parent).1;
  ctx = (get_flags l.ctx).1;
}

round_taken :
    (p : Parent) (fuel total b : ℕ) (bytes : List ℕ) (l : Link p)
    → (p.write (message_of p (b ∷ bytes) l) l.parent).0 ≡ true
    → write_rounds p (suc fuel) total (b ∷ bytes) l
      ≡ write_rounds p fuel total
          (drop (advance p (b ∷ bytes) l) (b ∷ bytes))
          (after_message p (b ∷ bytes) l)
unfolding write_rounds
round_taken p fuel total b bytes l went =
    if_true (p.write (message_of p (b ∷ bytes) l) l.parent).0 _ _ went

round_failed :
    (p : Parent) (fuel total b : ℕ) (bytes : List ℕ) (l : Link p)
    → (p.write (message_of p (b ∷ bytes) l) l.parent).0 ≡ false
    → write_rounds p (suc fuel) total (b ∷ bytes) l
      ≡ (ok (pos (advance p (b ∷ bytes) l)), after_message p (b ∷ bytes) l)
unfolding write_rounds
round_failed p fuel total b bytes l failed =
    if_false (p.write (message_of p (b ∷ bytes) l) l.parent).0 _ _ failed

module _ {p : Parent} (acc : Accepting p) where
  open acc use {written, takes, keeps}

  write_rounds_lem :
      (fuel total : ℕ) (bytes : List ℕ) (l : Link p)
      → length bytes ≤ fuel
      → 0 < l.ctx.window_size
      → (pieces : List (List ℕ)) × (joined pieces ≡ bytes)
        × All (λ b. length b ≤ l.ctx.window_size) pieces
        × ((write_rounds p fuel total bytes l).0 ≡ ok (pos total))
        × (written (write_rounds p fuel total bytes l).1.parent
            ≡ written l.parent ++ messages p (get_flags l.ctx).0 l.ctx.channel pieces)
  unfolding write_rounds
  write_rounds_lem fuel total [] l enough open_ = ([], refl, tt, refl, sym (append-nil _))
  write_rounds_lem zero total (b ∷ bytes) l enough open_ = absurd (omega arith)
  write_rounds_lem (suc fuel) total (b ∷ bytes) l enough open_ =
      let adv : ℕ = advance p (b ∷ bytes) l in
      let front : List ℕ = take adv (b ∷ bytes) in
      let message : List ℕ = message_of p (b ∷ bytes) l in
      let (no_flags, same_id, same_window) = get_flags-get_flags l.ctx in
      let (pieces, all, fit, done, wrote) =
        write_rounds_lem fuel total (drop adv (b ∷ bytes)) (after_message p (b ∷ bytes) l)
          (omega (arith, length-drop adv (b ∷ bytes))) (omega arith) in
      let step = round_taken p fuel total b bytes l (takes message l.parent) in
      let first : length front ≤ l.ctx.window_size = omega (arith, length-take adv (b ∷ bytes)) in
      (
        front ∷ pieces,
        ap (λ rest. front ++ rest) all ∙ take-append-drop adv (b ∷ bytes),
        (first, subst (λ w. All (λ b. length b ≤ w) pieces) same_window fit),
        ap (λ o. o.0) step ∙ done,
        ap (λ o. written o.1.parent) step
            ∙ wrote
            ∙ ap₂ (λ before more. before ++ more) (keeps message l.parent)
                (ap₂ (λ f id. messages p f id pieces) no_flags same_id)
            ∙ append_assoc (written l.parent) (message ∷ []) _,
      )

  -- With a window that is open, and a stream below that takes every message, a write sends all of
  -- its data and says so: cut into pieces that fit the window, in order, each behind a frame of data
  -- with its length and the id of the channel. The first of these carries the SYN (1) where the
  -- channel is new, and the ACK (2) where it has received a SYN and not answered it; there are no
  -- other flags. It needs no more rounds than there are bytes.
  pub channel_write_lem :
      (fuel : ℕ) (bytes : List ℕ) (l : Link p)
      → bytes ≢ []
      → length bytes ≤ fuel
      → 0 < l.ctx.window_size
      → (pieces : List (List ℕ)) × (joined pieces ≡ bytes)
        × All (λ b. length b ≤ l.ctx.window_size) pieces
        × ((channel_write p fuel bytes l).0 ≡ ok (pos (length bytes)))
        × (written (channel_write p fuel bytes l).1.parent
            ≡ written l.parent ++ messages p (owed l.ctx.state) l.ctx.channel pieces)
  unfolding channel_write
  channel_write_lem fuel [] l ne enough open_ = absurd (ne refl)
  channel_write_lem fuel (b ∷ bytes) l ne enough open_ =
      let (pieces, all, fit, done, wrote) =
        write_rounds_lem fuel (length (b ∷ bytes)) (b ∷ bytes) l enough open_ in
      (
        pieces,
        all,
        fit,
        rw (not_empty b bytes) done,
        rw (not_empty b bytes) (
            wrote
            ∙ ap (λ f. written l.parent ++ messages p f l.ctx.channel pieces)
                (get_flags-owed l.ctx)),
      )

  endless_lem :
      (fuel total : ℕ) (bytes : List ℕ) (l : Link p)
      → bytes ≢ []
      → l.ctx.window_size ≡ 0
      → ((write_rounds p fuel total bytes l).0 ≡ stuck)
        × (written (write_rounds p fuel total bytes l).1.parent
            ≡ written l.parent ++ messages p (get_flags l.ctx).0 l.ctx.channel (empty_pieces fuel))
  unfolding write_rounds
  endless_lem fuel total [] l ne shut = absurd (ne refl)
  endless_lem zero total (b ∷ bytes) l ne shut = (refl, sym (append-nil _))
  endless_lem (suc fuel) total (b ∷ bytes) l ne shut =
      let none_fit : advance p (b ∷ bytes) l ≡ 0 = omega arith in
      let message : List ℕ = message_of p (b ∷ bytes) l in
      let (no_flags, same_id, same_window) = get_flags-get_flags l.ctx in
      let step =
        round_taken p fuel total b bytes l (takes message l.parent)
        ∙ ap (λ n. write_rounds p fuel total (drop n (b ∷ bytes)) (after_message p (b ∷ bytes) l))
            none_fit in
      let (ends, wrote) =
        endless_lem fuel total (b ∷ bytes) (after_message p (b ∷ bytes) l) ne
          (same_window ∙ shut) in
      let first : message ≡ piece p (get_flags l.ctx).0 l.ctx.channel [] =
        ap (λ n. piece p (get_flags l.ctx).0 l.ctx.channel (take n (b ∷ bytes))) none_fit in
      (
        ap (λ o. o.0) step ∙ ends,
        ap (λ o. written o.1.parent) step
            ∙ wrote
            ∙ ap₂ (λ before more. before ++ more) (keeps message l.parent)
                (ap₂ (λ f id. messages p f id (empty_pieces fuel)) no_flags same_id)
            ∙ append_assoc (written l.parent) (message ∷ []) _
            ∙ ap (λ m. written l.parent ++ (m ∷ messages p 0 l.ctx.channel (empty_pieces fuel)))
                first,
      )

  -- With a window of 0, and a stream below that takes every message, a write of some data never
  -- returns: however many rounds it is given, it is not done after them, and has sent in each of them
  -- a frame without data, the first with the SYN or the ACK that the channel owes.
  pub channel_write_endless :
      (fuel : ℕ) (bytes : List ℕ) (l : Link p)
      → bytes ≢ []
      → l.ctx.window_size ≡ 0
      → ((channel_write p fuel bytes l).0 ≡ stuck)
        × (written (channel_write p fuel bytes l).1.parent
            ≡ written l.parent ++ messages p (owed l.ctx.state) l.ctx.channel (empty_pieces fuel))
  unfolding channel_write
  channel_write_endless fuel [] l ne shut = absurd (ne refl)
  channel_write_endless fuel (b ∷ bytes) l ne shut =
      let (ends, wrote) = endless_lem fuel (length (b ∷ bytes)) (b ∷ bytes) l ne shut in
      (
        rw (not_empty b bytes) ends,
        rw (not_empty b bytes) (
            wrote
            ∙ ap (λ f. written l.parent ++ messages p f l.ctx.channel (empty_pieces fuel))
                (get_flags-owed l.ctx)),
      )

module _ (p : Parent) where
  -- Where the stream below fails at the first message, a write reports as many bytes as sent as
  -- that message had, though none of them was.
  pub channel_write_failed :
      (fuel : ℕ) (bytes : List ℕ) (l : Link p)
      → bytes ≢ []
      → ((message : List ℕ) → (p.write message l.parent).0 ≡ false)
      → (channel_write p (suc fuel) bytes l).0 ≡ ok (pos (min (length bytes) l.ctx.window_size))
  unfolding channel_write
  channel_write_failed fuel [] l ne fails = absurd (ne refl)
  channel_write_failed fuel (b ∷ bytes) l ne fails = rw (not_empty b bytes) (
      ap (λ o. o.0)
        (round_failed p fuel (length (b ∷ bytes)) b bytes l (fails (message_of p (b ∷ bytes) l))))
