-- ===== src/Tests/Frames.antt =====
-- The framing of pyleaner/client.py on a short message.
use py_leaner.Base.{◌≡◌, refl, inl, inr, [], ◌∷◌, ◌++◌, arith}
use py_leaner.Base.Text.{Text, codes, decimal, decimal_digits}
use py_leaner.Client.Frames.{
  missing_length, make_lsp_message, read_message, read_after, read_body, read_header, length_of,
  after,
}
use py_leaner.Client.Frames.RoundTrip.{read_message-make_lsp_message}

abbrev blank_line : Text
blank_line = 13 ∷ 10 ∷ 13 ∷ 10 ∷ []

make_lsp_message_run :
    make_lsp_message (codes "{}") ≡ codes "Content-Length: 2" ++ (blank_line ++ codes "{}")
unfolding make_lsp_message decimal decimal_digits
make_lsp_message_run = refl

missing_length_run : read_message (codes "Length: 2" ++ blank_line) ≡ inl missing_length
unfolding read_message read_after read_body read_header length_of after
missing_length_run = refl

read_message-make_lsp_message_example :
    read_message (make_lsp_message (codes "{}") ++ codes "C") ≡ inr (codes "{}", codes "C")
read_message-make_lsp_message_example =
    read_message-make_lsp_message (codes "{}") (codes "C")
      (unfold decimal in unfold decimal_digits in omega arith)
