-- ===== src/Examples/Outputs.antt =====
-- src/alsaplayer.c: a chunk of two frames, and a card that takes one at a time.
use snapcastc.Base.{suc, ◌≡◌, refl, arith, true, List, [], ◌∷◌, ◌++◌, none, some}
use snapcastc.Base.Int.{pos, negsuc}
use snapcastc.Timespec.{timespec, time_sub, timespec_isnear, timespec_cmp}
use snapcastc.Pcmchunk.{chunk_decode, PcmChunk, Decoder}
use snapcastc.Client.{ClientCtx}
use snapcastc.Client.Receive.{intercom_get_time_next_audiochunk, intercom_getnextaudiochunk}
use snapcastc.Client.Playing.{
  drop_late, play_taken, decode_first_input, close_moved, Speed, PlayerCall, alsa_ready, timing,
  choose_chunk, getchunk, alsaplayer_handle, frames_of,
}
use snapcastc.Client.Played.{Attempt, IsWhole, play, play_correct}
use snapcastc.Client.Chosen.{alsaplayer_handle_failed}
use snapcastc.Examples.Servers.{client, player, chunk}

abbrev steady : Speed
steady ctx p ready = p

abbrev undecoded : Decoder
undecoded bytes room = none

abbrev two_frames : PcmChunk
two_frames = record chunk { size = 8; samples_data = 1 ∷ 2 ∷ 3 ∷ 4 ∷ 5 ∷ 6 ∷ 7 ∷ 8 ∷ [] }

two_frames-IsWhole : IsWhole two_frames 2
two_frames-IsWhole = record {
  channels = omega arith;
  frame_size = omega arith;
  some_frames = omega arith;
  rate = omega arith;
  size = refl;
  fits = omega arith;
  bytes = refl;
}

abbrev busy : ClientCtx
busy = record client { player = record player { overflow = some two_frames } }

abbrev one_frame : Attempt
one_frame = record { ctime = timespec 20 0; delay = 0; frames = 1 }

-- The next chunk is due now.
abbrev loaded : ClientCtx
loaded = record client { receivebuffer = some (record { capacity = 4; elements = chunk ∷ [] }) }

abbrev emptied : ClientCtx
emptied = record client {
  receivebuffer = some (record { capacity = 4; elements = [] });
  player = record player { playing = true };
}

abbrev calls : List PlayerCall
calls = decode_first_input ∷ close_moved 1200 ∷ []

play_correct_example :
    play undecoded steady 1 ((one_frame ∷ []) ++ one_frame ∷ []) busy
    ≡ some
        (record busy { player = record busy.player { overflow = none } }, two_frames.samples_data)
play_correct_example =
    play_correct undecoded steady 1 (one_frame ∷ []) one_frame busy two_frames 2 refl
      two_frames-IsWhole refl (omega arith)

alsaplayer_handle_failed_example :
    (alsaplayer_handle undecoded steady (suc 0) (timespec 20 0) 0 (negsuc 4) (pos 0) loaded
      ≡ some (emptied, ([], calls)))
    × (emptied.player.overflow ≡ none)
unfolding getchunk drop_late timing time_sub timespec_isnear timespec_cmp alsa_ready choose_chunk
    play_taken intercom_getnextaudiochunk intercom_get_time_next_audiochunk frames_of chunk_decode
alsaplayer_handle_failed_example =
    alsaplayer_handle_failed undecoded steady 0 (timespec 20 0) 0 4 (pos 0) loaded emptied chunk
      calls refl (omega arith) refl (omega arith) (omega arith) refl
