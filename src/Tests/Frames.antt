-- ===== src/Tests/Frames.antt =====
-- Frames: runs and theorems of Protocol at concrete frames.
use sweet_dawn.Base.{◌≤◌, ◌<◌, ◌≡◌, ◌↔◌, some, List, [], ◌∷◌, ◌++◌, refl, arith, length, take, drop}
use sweet_dawn.Protocol.{Bytes, max_frame_size, parser_init, parser_next, parser_feed, extracted}
use sweet_dawn.Protocol.Extract.{IsFrame, extracted-IsFrame, next_frame}
use sweet_dawn.Protocol.Scan.{scan, parser_next-scan}
use sweet_dawn.Protocol.Stream.{Receives, idle, read, Drains, dry, more}
use sweet_dawn.Protocol.Reads.{Receives-unique, Receives-total}
use sweet_dawn.Protocol.Request.{build-IsFrame_iff, next-build}
use sweet_dawn.Tests.{status_frame, built, built_runs}

status_is_extracted :
    parser_next 259 (7 ∷ 0xFE ∷ status_frame ++ (9 ∷ [])) ≡ some (extracted status_frame (9 ∷ []))
unfolding parser_next
status_is_extracted = refl

extracted-IsFrame_example :
    IsFrame status_frame
    × (length status_frame ≤ 259)
    × ((noise : Bytes) × (7 ∷ 0xFE ∷ status_frame ++ (9 ∷ [])
          ≡ noise ++ (status_frame ++ (9 ∷ []))))
extracted-IsFrame_example =
    extracted-IsFrame 259 (7 ∷ 0xFE ∷ status_frame ++ (9 ∷ [])) status_frame (9 ∷ [])
      status_is_extracted

status-IsFrame : IsFrame status_frame
status-IsFrame = ground arith

next_frame_example :
    parser_next 259 ((1 ∷ 0xFE ∷ 2 ∷ []) ++ (status_frame ++ (9 ∷ [])))
    ≡ some (extracted status_frame (9 ∷ []))
next_frame_example =
    next_frame 259 (1 ∷ 0xFE ∷ 2 ∷ []) status_frame (9 ∷ []) (ground arith) status-IsFrame
      (omega arith)

parser_next-scan_example : parser_next 259 status_frame ≡ some (scan 259 status_frame)
parser_next-scan_example = parser_next-scan 259 status_frame

status-Drains : Drains 259 status_frame (status_frame ∷ []) []
unfolding parser_next
status-Drains = more refl (dry refl)

whole_read : Receives 259 parser_init (status_frame ∷ []) (status_frame ∷ []) []
unfolding parser_feed
whole_read = read refl status-Drains idle

split_read :
    Receives 259 parser_init (take 5 status_frame ∷ drop 5 status_frame ∷ []) (status_frame ∷ []) []
unfolding parser_feed parser_next
split_read = read refl (dry refl) (read refl status-Drains idle)

Receives-unique_example : (status_frame ∷ [] ≡ status_frame ∷ []) × (parser_init ≡ [])
Receives-unique_example =
    Receives-unique 259 (take 5 status_frame ∷ drop 5 status_frame ∷ []) (status_frame ∷ [])
      (status_frame ∷ []) (status_frame ∷ []) [] [] refl split_read whole_read

Receives-total_example :
    (fs : List Bytes) × (q : Bytes) × Receives 259 (0xFE ∷ []) (status_frame ∷ [] ∷ []) fs q
    × (length q < max_frame_size)
Receives-total_example =
    Receives-total 259 (0xFE ∷ []) (status_frame ∷ [] ∷ []) (omega arith) (omega arith)
      (omega arith, (omega arith, tt))

build-IsFrame_iff_example : IsFrame built ↔ (2 ≤ 247)
build-IsFrame_iff_example = build-IsFrame_iff 0x20 259 (7 ∷ 9 ∷ []) built built_runs

next-build_example :
    parser_next max_frame_size (built ++ (1 ∷ [])) ≡ some (extracted built (1 ∷ []))
next-build_example = next-build 0x20 (7 ∷ 9 ∷ []) built (1 ∷ []) built_runs
