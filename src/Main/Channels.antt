-- ===== src/Main/Channels.antt =====
-- main.js: the channels of a list, as they are read and opened.
use vm_automation_deployment.Common.{
  ℕ, suc, ◌<◌, ◌^◌, ◌≡◌, refl, ap, ◌∙◌, Bool, true, ◌&&◌, ◌||◌, List, [], ◌∷◌, ◌++◌, Option, none,
  some, length, if◌then◌else◌, arith,
}
use vm_automation_deployment.Common.Int.{pos, pos_part}
use vm_automation_deployment.Constants.{
  spice_channel_display, spice_channel_inputs, spice_channel_cursor, spice_channel_playback,
}
use vm_automation_deployment.DataView.{to_int32, to_uint32}
use vm_automation_deployment.DataView.RoundTrip.{word}
use vm_automation_deployment.Wire.{Bytes}
use vm_automation_deployment.Messages.Cursor.Laws.{on, u8-on, u32-on}
use vm_automation_deployment.Messages.Agent.Layout.{start_on}
use vm_automation_deployment.Main.{
  Main, Inputs, SpiceChannelId, read_channel_list, read_channels, is_type, open_channel,
  open_channels,
}

-- A channel that the server names.
pub record Named : Type 0 where
  pub type : ℕ
  pub id : ℕ

abbrev pub channel : Named → SpiceChannelId
channel c = record { type = some c.type; id = some c.id }

abbrev pub channels : List Named → List SpiceChannelId
channels [] = []
channels (c ∷ cs) = channel c ∷ channels cs

abbrev pub list_bytes : List Named → Bytes → Bytes
list_bytes [] r = r
list_bytes (c ∷ cs) r = c.type ∷ c.id ∷ list_bytes cs r

read_channel_list-bytes :
    (cs : List Named) (d r : Bytes)
    → (read_channel_list (length cs) (on d (list_bytes cs r))).0 ≡ channels cs
unfolding read_channel_list
read_channel_list-bytes [] d r = refl
read_channel_list-bytes (c ∷ cs) d r =
    rw (u8-on d (c.id ∷ list_bytes cs r) c.type, u8-on (d ++ (c.type ∷ [])) (list_bytes cs r) c.id)
      (ap (λ t. channel c ∷ t) (read_channel_list-bytes cs ((d ++ (c.type ∷ [])) ++ (c.id ∷ [])) r))

small : (n : ℕ) → n < 2 ^ 31 → pos_part (to_int32 (to_uint32 (pos n))) ≡ n
small n h = ground arith

-- The number of channels, and the channels behind it, are read as these channels.
pub read_channels-bytes :
    (cs : List Named) (r : Bytes)
    → length cs < 2 ^ 31
    → (read_channels (record { buf = word (pos (length cs)) true ++ list_bytes cs r; at = 0 })).0
      ≡ channels cs
unfolding read_channels
read_channels-bytes cs r h =
    rw
      (
        start_on (word (pos (length cs)) true ++ list_bytes cs r),
        u32-on [] (list_bytes cs r) (pos (length cs)),
        small (length cs) h,
      )
      (read_channel_list-bytes cs (word (pos (length cs)) true) r)

abbrev pub last_of :
    (SpiceChannelId → Bool) → List SpiceChannelId → Option SpiceChannelId → Option SpiceChannelId
last_of p [] before = before
last_of p (c ∷ cs) before = let now = if p c then some c else before in last_of p cs now

abbrev pub is_first_display : SpiceChannelId → Bool
is_first_display c = is_type spice_channel_display c.type && is_type 0 c.id

abbrev pub is_cursor : SpiceChannelId → Bool
is_cursor c = is_type spice_channel_cursor c.type || is_type spice_channel_playback c.type

abbrev pub is_inputs : SpiceChannelId → Bool
is_inputs c = is_type spice_channel_inputs c.type

abbrev pub inputs_channel : Option Inputs → Option SpiceChannelId
inputs_channel none = none
inputs_channel (some i) = some i.channel

module _ (i : ℕ) (c : SpiceChannelId) (s : Main) where
  open_display : (open_channel i c s).display ≡ (if is_first_display c then some c else s.display)
  unfolding open_channel
  open_display = ground arith

  open_cursor : (open_channel i c s).cursor ≡ (if is_cursor c then some c else s.cursor)
  unfolding open_channel
  open_cursor = ground arith

  open_inputs :
      inputs_channel (open_channel i c s).inputs
      ≡ (if is_inputs c then some c else inputs_channel s.inputs)
  unfolding open_channel
  open_inputs = ground arith

open_one :
    (i : ℕ) (c : SpiceChannelId) (s : Main)
    → ((open_channel i c s).display ≡ (if is_first_display c then some c else s.display))
      × ((open_channel i c s).cursor ≡ (if is_cursor c then some c else s.cursor))
      × (inputs_channel (open_channel i c s).inputs
          ≡ (if is_inputs c then some c else inputs_channel s.inputs))
open_one i c s = (open_display i c s, open_cursor i c s, open_inputs i c s)

-- Behind a list of channels the display is the last one of type display with id 0, the inputs
-- channel the last one of its type, and `cursor` the last one of type cursor or playback; where
-- there is none in the list, it is the one from before.
pub open_channels-last :
    (cs : List SpiceChannelId) (i : ℕ) (s : Main)
    → ((open_channels i cs s).display ≡ last_of is_first_display cs s.display)
      × ((open_channels i cs s).cursor ≡ last_of is_cursor cs s.cursor)
      × (inputs_channel (open_channels i cs s).inputs
          ≡ last_of is_inputs cs (inputs_channel s.inputs))
unfolding open_channels
open_channels-last [] i s = (refl, refl, refl)
open_channels-last (c ∷ cs) i s =
    let (display, cursor, inputs) = open_one i c s in
    let (displays, cursors, all) = open_channels-last cs (suc i) (open_channel i c s) in
    (
      displays ∙ ap (last_of is_first_display cs) display,
      cursors ∙ ap (last_of is_cursor cs) cursor,
      all ∙ ap (last_of is_inputs cs) inputs,
    )
