-- ===== src/Playback/File.antt =====
-- The file that a run of packets makes, and the states of a playback that has had some of it.
use vm_automation_deployment.Common.{
  ◌≡◌, Bool, true, false, not, ◌||◌, List, [], ◌∷◌, ◌++◌, none, some, if◌then◌else◌, ℕ,
}
use vm_automation_deployment.Common.Int.{ℤ, pos}
use vm_automation_deployment.Wire.{Bytes}
use vm_automation_deployment.Types.Place.{is_null}
use vm_automation_deployment.Playback.{
  Playback, new_playback, concat, packet_time, cluster_bytes, block_bytes, file_bytes, is_old,
}

pub record Packet : Type 0 where
  pub time : ℤ
  pub body : Bytes

-- The beginnings of the file and of the cluster, and the time of the last packet.
pub record Clock : Type 0 where
  pub start : ℤ
  pub cluster : ℤ
  pub last : ℤ

abbrev pub time_of : Clock → Packet → ℤ
time_of k d = packet_time k.start k.last d.time

-- What a packet is in the file: behind the head of the file or of a cluster, or a block alone.
abbrev pub emitted : (ℕ → Bytes) → Clock → Packet → Bytes
emitted float32 k d =
    let t = time_of k d in
    if is_null k.start
    then (file_bytes float32 ++ cluster_bytes t t) ++ block_bytes t t true d.body
    else (if is_old k.cluster t
        then cluster_bytes k.start t ++ block_bytes t t true d.body
        else block_bytes k.cluster t false d.body)

abbrev pub ticked : Clock → Packet → Clock
ticked k d =
    let t = time_of k d in
    record {
      start = if is_null k.start then t else k.start;
      cluster = if is_null k.start || is_old k.cluster t then t else k.cluster;
      last = t;
    }

-- The clock behind some packets, and their file, the latest packet first.
abbrev pub clock : List Packet → Clock
clock [] = record { start = pos 0; cluster = pos 0; last = pos 0 }
clock (d ∷ ds) = ticked (clock ds) d

abbrev pub file : (ℕ → Bytes) → List Packet → Bytes
file float32 [] = []
file float32 (d ∷ ds) = file float32 ds ++ emitted float32 (clock ds) d

-- A playback that has begun.
abbrev pub playing : Bool → List Bytes → List Bytes → Clock → Playback
playing busy appended queue k = record {
  source_buffer = some (record { updating = busy; appended = appended });
  media_source = true;
  queue = queue;
  append_okay = not busy;
  start_time = k.start;
  cluster_time = k.cluster;
  last_data_time = k.last;
  errors = [];
}

-- Listening, before the first packet.
abbrev pub listening : Playback
listening = record new_playback {
  source_buffer = some (record { updating = false; appended = [] });
  media_source = true;
}

-- The source buffer is done with what it was given.
unfoldable pub finished : Playback → Playback
finished p = elim p.source_buffer [
  | none ↦ p
  | some s ↦ record p { source_buffer = some (record s { updating = false }) }
]

-- It has had or waits for just some bytes, and none wait for a source buffer that is idle.
pub record Fed (p : Playback) (k : Clock) (w : Bytes) : Type 0 where
  pub busy : Bool
  pub appended : List Bytes
  pub queue : List Bytes
  pub state : p ≡ playing busy appended queue k
  pub bytes : concat appended ++ concat queue ≡ w
  pub settled : busy ≡ false → queue ≡ []
