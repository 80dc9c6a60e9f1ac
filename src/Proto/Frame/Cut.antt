-- ===== src/Proto/Frame/Cut.antt =====
-- internal/proto/frame.go: a frame that is cut short is not returned.
use ipcap.Base.{
  ℕ, ◌<◌, ◌≡◌, sym, ap, ◌∙◌, inl, inr, arith, List, [], ◌++◌, append-nil, append_assoc, length,
  take, drop, All, All-append, All-take, length-append, length-drop, take-append-drop, err,
  Result-cases, ok-injective,
}
use ipcap.Bytes.{IsByte, put_be}
use ipcap.Bytes.RoundTrip.{put_be-IsByte}
use ipcap.Proto.Crc.{crc32c}
use ipcap.Proto.Frame.{
  Frame, FrameError, header_front, marshal_header, append_frame, read_frame, IsFrame,
}
use ipcap.Proto.Frame.RoundTrip.{read_frame-append_frame}
use ipcap.Proto.Frame.Exact.{read_frame_exact}

header_front-IsByte : (f : Frame) (n : ℕ) → All IsByte (header_front f n)
unfolding header_front
header_front-IsByte f n = omega arith

marshal_header-IsByte : (f : Frame) (n : ℕ) → All IsByte (marshal_header f n)
unfolding marshal_header
marshal_header-IsByte f n =
    All-append IsByte (header_front f n) (put_be 4 (crc32c (header_front f n)))
      (header_front-IsByte f n) (put_be-IsByte 4 (crc32c (header_front f n)))

append_frame-IsByte : (f : Frame) → IsFrame f → All IsByte (append_frame f [])
unfolding append_frame
append_frame-IsByte f h =
    All-append IsByte (marshal_header f (length f.payload) ++ f.payload)
      (put_be 4 (crc32c f.payload))
      (All-append IsByte (marshal_header f (length f.payload)) f.payload
        (marshal_header-IsByte f (length f.payload)) h.payload_bytes)
      (put_be-IsByte 4 (crc32c f.payload))

-- Of the bytes of a frame, any number that is not all of them is an error of ReadFrame.
pub read_frame-cut :
    (f : Frame) (n : ℕ)
    → IsFrame f
    → n < length (append_frame f [])
    → (e : FrameError) × (read_frame (take n (append_frame f [])) ≡ err e)
read_frame-cut f n h short = elim (Result-cases (read_frame (take n (append_frame f [])))) [
  | inr failed ↦ failed
  | inl ((g, rest), e) ↦
      let bytes = append_frame f [] in
      let cut =
        read_frame_exact (take n bytes) g rest (All-take IsByte n bytes (append_frame-IsByte f h))
          e in
      let whole : bytes ≡ append_frame g [] ++ (rest ++ drop n bytes) =
        sym (take-append-drop n bytes)
        ∙ ap (λ t. t ++ drop n bytes) cut.1
        ∙ append_assoc (append_frame g []) rest (drop n bytes) in
      let same : ◌≡◌ {A = Frame × List ℕ} (g, rest ++ drop n bytes) (f, []) = ok-injective (
        sym (read_frame-append_frame g (rest ++ drop n bytes) cut.0)
        ∙ ap read_frame (sym whole)
        ∙ ap read_frame (sym (append-nil bytes))
        ∙ read_frame-append_frame f [] h) in
      let none : length (rest ++ drop n bytes) ≡ 0 = ap (λ (x : Frame × List ℕ). length x.1) same in
      absurd (omega (arith, length-append rest (drop n bytes), length-drop n bytes))
]
