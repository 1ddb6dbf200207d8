-- ===== src/Playback/Session.antt =====
-- Runs of packets and of updates of the source buffer that end.
use vm_automation_deployment.Common.{
  ℕ, ◌≡◌, refl, subst, sym, ap, ◌∙◌, Bool, true, false, List, [], ◌∷◌, ◌++◌, none, some, arith,
}
use vm_automation_deployment.Wire.{Bytes}
use vm_automation_deployment.Types.Place.{is_null}
use vm_automation_deployment.Messages.Media.{SpiceMsgPlaybackData}
use vm_automation_deployment.Playback.{
  Playback, concat, packet_time, handle_append_buffer_done, play_packet,
}
use vm_automation_deployment.Playback.Handler.{on_data}
use vm_automation_deployment.Playback.File.{
  Packet, Clock, clock, ticked, file, playing, listening, finished, Fed,
}
use vm_automation_deployment.Playback.Stream.{feed_done, feed_first, feed_packet}

abbrev pub is_updating : Playback → Bool
is_updating p = elim p.source_buffer [ none ↦ false | some s ↦ s.updating ]

abbrev pub appended_of : Playback → List Bytes
appended_of p = elim p.source_buffer [ none ↦ [] | some s ↦ s.appended ]

-- The first packet has a time that is not 0.
abbrev pub Starts : List Packet → Packet → Type 0
Starts [] d = is_null d.time ≡ false
Starts (e ∷ ds) d = Unit

abbrev pub message_of : Packet → SpiceMsgPlaybackData
message_of d = record { time = d.time; body = some d.body }

-- What is reached from a source buffer that has just been opened, by the packets, the latest first,
-- and by ends of updates under way.
pub data Reached (refuses : Bool → Bytes → Bool) (float32 : ℕ → Bytes)
    : Playback → List Packet → Type 0 where
  opened : Reached refuses float32 listening []
  packet :
      (p : Playback) (ds : List Packet) (d : Packet)
      → Starts ds d
      → Reached refuses float32 p ds
      → Reached refuses float32 (on_data refuses float32 (message_of d) p).1 (d ∷ ds)
  done :
      (p : Playback) (ds : List Packet)
      → is_updating p ≡ true
      → Reached refuses float32 p ds
      → Reached refuses float32 (handle_append_buffer_done refuses (finished p)) ds

-- Before the first packet, and behind it.
abbrev Held : (ℕ → Bytes) → Playback → List Packet → Type 0
Held float32 p [] = p ≡ listening
Held float32 p (d ∷ ds) =
    Fed p (clock (d ∷ ds)) (file float32 (d ∷ ds)) × (is_null (clock (d ∷ ds)).start ≡ false)

module _ (refuses : Bool → Bytes → Bool) (float32 : ℕ → Bytes)
    (idle : (b : Bytes) → refuses false b ≡ false) where
  on_data-play :
      (p : Playback) (k : Clock) (w : Bytes) (d : Packet)
      → Fed p k w
      → play_packet refuses float32 d.time (some d.body) p
        ≡ (on_data refuses float32 (message_of d) p).1
  unfolding on_data
  on_data-play p k w d f =
      subst
        (λ q.
          play_packet refuses float32 d.time (some d.body) q
          ≡ (on_data refuses float32 (message_of d) q).1)
        (sym f.state) refl

  on_data-listening :
      (d : Packet)
      → play_packet refuses float32 d.time (some d.body) listening
        ≡ (on_data refuses float32 (message_of d) listening).1
  unfolding on_data
  on_data-listening d = refl

  first-start : (d : Packet) → (clock (d ∷ [])).start ≡ d.time
  unfolding packet_time
  first-start d = refl

  ticked-start :
      (k : Clock) (d : Packet) → is_null k.start ≡ false → is_null (ticked k d).start ≡ false
  ticked-start k d h = rw h h

  packet-Held :
      (p : Playback) (ds : List Packet) (d : Packet)
      → Starts ds d
      → Held float32 p ds
      → Held float32 (on_data refuses float32 (message_of d) p).1 (d ∷ ds)
  packet-Held p [] d h e =
      let k = clock (d ∷ []) in
      let w = file float32 (d ∷ []) in
      let first =
        subst (λ q. Fed q k w) (on_data-listening d) (feed_first refuses float32 idle d) in
      (
        subst (λ q. Fed (on_data refuses float32 (message_of d) q).1 k w) (sym e) first,
        ap is_null (first-start d) ∙ h,
      )
  packet-Held p (e ∷ ds) d h (f, started) =
      let k = clock (e ∷ ds) in
      let w = file float32 (e ∷ ds) in
      (
        subst (λ q. Fed q (clock (d ∷ e ∷ ds)) (file float32 (d ∷ e ∷ ds))) (on_data-play p k w d f)
            (feed_packet refuses float32 idle p k w d started f),
        ticked-start k d started,
      )

  done-Fed :
      (p : Playback) (k : Clock) (w : Bytes)
      → is_updating p ≡ true
      → Fed p k w
      → Fed (handle_append_buffer_done refuses (finished p)) k w
  done-Fed p k w h f =
      let busy : f.busy ≡ true = ap is_updating (sym f.state) ∙ h in
      let state : p ≡ playing true f.appended f.queue k =
        f.state ∙ ap (λ b. playing b f.appended f.queue k) busy in
      subst (λ q. Fed (handle_append_buffer_done refuses (finished q)) k w) (sym state)
        (feed_done refuses idle f.appended f.queue k w f.bytes)

  done-Held :
      (p : Playback) (ds : List Packet)
      → is_updating p ≡ true
      → Held float32 p ds
      → Held float32 (handle_append_buffer_done refuses (finished p)) ds
  done-Held p [] h e = let never : false ≡ true = ap is_updating (sym e) ∙ h in ground arith
  done-Held p (d ∷ ds) h (f, started) =
      (done-Fed p (clock (d ∷ ds)) (file float32 (d ∷ ds)) h f, started)

  Reached-Held :
      (p : Playback) (ds : List Packet) → Reached refuses float32 p ds → Held float32 p ds
  Reached-Held p ds opened = refl
  Reached-Held p ds (packet q es d h r) = packet-Held q es d h (Reached-Held q es r)
  Reached-Held p ds (done q es h r) = done-Held q es h (Reached-Held q es r)

-- The source buffer has had all there is, unless it is updating.
abbrev pub IsSettled : Playback → Type 0
IsSettled p = is_updating p ≡ false → p.queue ≡ []

-- What is shown of a state behind some packets.
abbrev pub IsFaithful : (ℕ → Bytes) → Playback → List Packet → Type 0
IsFaithful float32 p ds =
    (concat (appended_of p) ++ concat p.queue ≡ file float32 ds) × IsSettled p × (p.errors ≡ [])

Fed-IsFaithful :
    (float32 : ℕ → Bytes) (p : Playback) (k : Clock) (ds : List Packet)
    → Fed p k (file float32 ds)
    → IsFaithful float32 p ds
Fed-IsFaithful float32 p k ds f =
    subst (λ q. IsFaithful float32 q ds) (sym f.state) (f.bytes, f.settled, refl)

Held-IsFaithful :
    (float32 : ℕ → Bytes) (p : Playback) (ds : List Packet)
    → Held float32 p ds
    → IsFaithful float32 p ds
Held-IsFaithful float32 p [] e =
    subst (λ q. IsFaithful float32 q []) (sym e) (refl, λ h. refl, refl)
Held-IsFaithful float32 p (d ∷ ds) (f, started) = Fed-IsFaithful float32 p _ (d ∷ ds) f

-- Where a source buffer that is not updating takes what it is given, though one that is updating may
-- refuse all: however packets, the first at a time other than 0, and ends of updates follow each
-- other, nothing that is appended is refused; what was appended and what waits are, one after the
-- other, just the file that the packets make in order, with its clusters and blocks; and while
-- nothing is being updated nothing waits.
pub Reached-IsFaithful :
    (refuses : Bool → Bytes → Bool) (float32 : ℕ → Bytes) (p : Playback) (ds : List Packet)
    → ((b : Bytes) → refuses false b ≡ false)
    → Reached refuses float32 p ds
    → IsFaithful float32 p ds
Reached-IsFaithful refuses float32 p ds idle r =
    Held-IsFaithful float32 p ds (Reached-Held refuses float32 idle p ds r)
