-- ===== src/Playback/Stream.antt =====
-- What each operation adds to the bytes that the source buffer has had or waits for.
use vm_automation_deployment.Common.{
  ◌≡◌, refl, sym, ap, subst, ◌∙◌, Bool, true, false, List, [], ◌∷◌, ◌++◌, some, append_assoc,
  append-nil, Bool-cases, inl, inr, arith, ℕ,
}
use vm_automation_deployment.Common.Int.{ℤ, pos}
use vm_automation_deployment.Wire.{Bytes}
use vm_automation_deployment.Types.Place.{is_null}
use vm_automation_deployment.Playback.{
  Playback, concat, condense_playback_queue, packet_time, cluster_bytes, block_bytes, file_bytes,
  is_old, playback_append_buffer, append_or_queue, simple_block, new_cluster, start_playback, play,
  play_packet, handle_append_buffer_done,
}
use vm_automation_deployment.Playback.File.{
  Packet, Clock, time_of, emitted, ticked, clock, file, playing, listening, finished, Fed,
}

concat-append : (xs ys : List Bytes) → concat (xs ++ ys) ≡ concat xs ++ concat ys
concat-append [] ys = refl
concat-append (b ∷ bs) ys =
    ap (λ t. b ++ t) (concat-append bs ys) ∙ sym (append_assoc b (concat bs) (concat ys))

concat-single : (xs : List Bytes) (b : Bytes) → concat (xs ++ (b ∷ [])) ≡ concat xs ++ b
concat-single xs b = concat-append xs (b ∷ []) ∙ ap (λ t. concat xs ++ t) (append-nil b)

condense-concat : (q : List Bytes) → condense_playback_queue q ≡ concat q
unfolding condense_playback_queue
condense-concat [] = refl
condense-concat (b ∷ []) = sym (append-nil b)
condense-concat (b ∷ c ∷ bs) = refl

module _ (refuses : Bool → Bytes → Bool) (idle : (b : Bytes) → refuses false b ≡ false) where
  -- An idle source buffer takes the bytes.
  append_idle :
      (appended : List Bytes) (k : Clock) (b : Bytes)
      → playback_append_buffer refuses b (playing false appended [] k)
        ≡ playing true (appended ++ (b ∷ [])) [] k
  unfolding playback_append_buffer
  append_idle appended k b = rw (idle b) refl

  feed_playing :
      (busy : Bool) (appended queue : List Bytes) (k : Clock) (b : Bytes)
      → (busy ≡ false → queue ≡ [])
      → Fed
          (append_or_queue refuses b (playing busy appended queue k))
          k
          ((concat appended ++ concat queue) ++ b)
  unfolding append_or_queue
  feed_playing true appended queue k b settled = record {
    busy = true;
    appended = appended;
    queue = queue ++ (b ∷ []);
    state = refl;
    bytes =
        ap (λ t. concat appended ++ t) (concat-single queue b)
        ∙ sym (append_assoc (concat appended) (concat queue) b);
    settled = λ e. ground arith;
  }
  feed_playing false appended queue k b settled = record {
    busy = true;
    appended = appended ++ (b ∷ []);
    queue = [];
    state = rw (settled refl) (append_idle appended k b);
    bytes =
        rw (settled refl, append-nil (concat (appended ++ (b ∷ []))), append-nil (concat appended))
          (concat-single appended b);
    settled = λ e. refl;
  }

  feed :
      (p : Playback) (k : Clock) (w b : Bytes)
      → Fed p k w
      → Fed (append_or_queue refuses b p) k (w ++ b)
  feed p k w b f =
      let next = feed_playing f.busy f.appended f.queue k b f.settled in
      subst (λ q. Fed (append_or_queue refuses b q) k (w ++ b)) (sym f.state)
        (subst
          (λ x. Fed (append_or_queue refuses b (playing f.busy f.appended f.queue k)) k (x ++ b))
          f.bytes next)

  feed_block :
      (p : Playback) (k : Clock) (w body : Bytes) (t : ℤ) (keyframe : Bool)
      → Fed p k w
      → Fed
          (simple_block refuses t (some body) keyframe p)
          k
          (w ++ block_bytes k.cluster t keyframe body)
  unfolding simple_block
  feed_block p k w body t keyframe f =
      let same_time : p.cluster_time ≡ k.cluster = ap (λ (q : Playback). q.cluster_time) f.state in
      let block = block_bytes k.cluster t keyframe body in
      subst (λ c. Fed (append_or_queue refuses (block_bytes c t keyframe body) p) k (w ++ block))
        (sym same_time) (feed p k w block f)

  -- The clock when a cluster begins.
  feed_cluster :
      (p : Playback) (k : Clock) (w body : Bytes) (t : ℤ)
      → Fed p k w
      → Fed
          (new_cluster refuses t (some body) p)
          (record k { cluster = t })
          ((w ++ cluster_bytes k.start t) ++ block_bytes t t true body)
  unfolding new_cluster
  feed_cluster p k w body t f =
      let same_time : p.start_time ≡ k.start = ap (λ (q : Playback). q.start_time) f.state in
      let begun : Fed (record p { cluster_time = t }) (record k { cluster = t }) w = record {
        busy = f.busy;
        appended = f.appended;
        queue = f.queue;
        state = ap (λ (q : Playback). (record q { cluster_time = t })) f.state;
        bytes = f.bytes;
        settled = f.settled;
      } in
      let fed =
        feed (record p { cluster_time = t }) (record k { cluster = t }) w (cluster_bytes k.start t)
          begun in
      let now : Clock = record k { cluster = t } in
      let q : Playback = record p { cluster_time = t } in
      subst
        (λ c.
          Fed
            (simple_block refuses t (some body) true
              (append_or_queue refuses (cluster_bytes c t) q))
            now ((w ++ cluster_bytes k.start t) ++ block_bytes t t true body))
        (sym same_time)
        (feed_block (append_or_queue refuses (cluster_bytes k.start t) q) now
          (w ++ cluster_bytes k.start t) body t true fed)

  -- The end of an update: what waits is handed over at once.
  pub feed_done :
      (appended queue : List Bytes) (k : Clock) (w : Bytes)
      → concat appended ++ concat queue ≡ w
      → Fed (handle_append_buffer_done refuses (finished (playing true appended queue k))) k w
  unfolding handle_append_buffer_done finished playback_append_buffer
  feed_done appended [] k w h = record {
    busy = false;
    appended = appended;
    queue = [];
    state = refl;
    bytes = h;
    settled = λ e. refl;
  }
  feed_done appended (b ∷ bs) k w h = record {
    busy = true;
    appended = appended ++ (condense_playback_queue (b ∷ bs) ∷ []);
    queue = [];
    state = rw (idle (condense_playback_queue (b ∷ bs))) refl;
    bytes =
        append-nil (concat (appended ++ (condense_playback_queue (b ∷ bs) ∷ [])))
        ∙ concat-single appended (condense_playback_queue (b ∷ bs))
        ∙ ap (λ t. concat appended ++ t) (condense-concat (b ∷ bs))
        ∙ h;
    settled = λ e. refl;
  }

module _ (refuses : Bool → Bytes → Bool) (float32 : ℕ → Bytes)
    (idle : (b : Bytes) → refuses false b ≡ false) where
  -- The first packet.
  pub feed_first :
      (d : Packet)
      → Fed
          (play_packet refuses float32 d.time (some d.body) listening)
          (clock (d ∷ []))
          (file float32 (d ∷ []))
  unfolding play_packet play start_playback
  feed_first d =
      let t = packet_time (pos 0) (pos 0) d.time in
      let head = file_bytes float32 in
      let k : Clock = record { start = t; cluster = pos 0; last = t } in
      let began : Playback = record listening { start_time = t; last_data_time = t } in
      let given : Fed (playback_append_buffer refuses head began) k head = record {
        busy = true;
        appended = head ∷ [];
        queue = [];
        state = unfold playback_append_buffer in rw (idle head) refl;
        bytes = append-nil (head ++ []) ∙ append-nil head;
        settled = λ e. refl;
      } in
      feed_cluster refuses idle (playback_append_buffer refuses head began) k head d.body t given

  feed_later :
      (busy : Bool) (appended queue : List Bytes) (k : Clock) (w : Bytes) (d : Packet)
      → is_null k.start ≡ false
      → concat appended ++ concat queue ≡ w
      → (busy ≡ false → queue ≡ [])
      → Fed
          (play_packet refuses float32 d.time (some d.body) (playing busy appended queue k))
          (ticked k d)
          (w ++ emitted float32 k d)
  unfolding play_packet play
  feed_later busy appended queue k w d started h settled =
      let t = time_of k d in
      let now : Clock = record k { last = t } in
      let given : Fed (playing busy appended queue now) now w = record {
        busy = busy;
        appended = appended;
        queue = queue;
        state = refl;
        bytes = h;
        settled = settled;
      } in
      elim (Bool-cases (is_old k.cluster t)) [
        | inl old ↦
            rw (started, old)
              (subst
                (Fed (new_cluster refuses t (some d.body) (playing busy appended queue now))
                  (record now { cluster = t }))
                (append_assoc w (cluster_bytes k.start t) (block_bytes t t true d.body))
                (feed_cluster refuses idle (playing busy appended queue now) now w d.body t given))
        | inr young ↦
            rw (started, young)
              (feed_block refuses idle (playing busy appended queue now) now w d.body t false given)
      ]

  pub feed_packet :
      (p : Playback) (k : Clock) (w : Bytes) (d : Packet)
      → is_null k.start ≡ false
      → Fed p k w
      → Fed
          (play_packet refuses float32 d.time (some d.body) p)
          (ticked k d)
          (w ++ emitted float32 k d)
  feed_packet p k w d started f =
      subst
        (λ q.
          Fed (play_packet refuses float32 d.time (some d.body) q) (ticked k d)
            (w ++ emitted float32 k d))
        (sym f.state) (feed_later f.busy f.appended f.queue k w d started f.bytes f.settled)
