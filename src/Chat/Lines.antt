-- ===== src/Chat/Lines.antt =====
-- The loop of `new_msg` over the lines in a client's buffer ends: each round takes a line out of it.
use ntu_sp17fall.Base.{
  ℕ, zero, suc, ◌<◌, ◌≡◌, ◌≢◌, true, [], ◌∷◌, ◌++◌, Option, none, some, ◌==◌, arith, length,
  Option-cases, Bool-cases, inl, inr, Text,
}
use ntu_sp17fall.Chat.{Server}
use ntu_sp17fall.Chat.Message.{
  Request, try, quit, message, other, split_line, serve_line, set_buffer, serve_lines, new_msg,
  c_string,
}

length-split_line : (t line rest : Text) → split_line t ≡ some (line, rest) → length rest < length t
unfolding split_line
length-split_line [] line rest h = cc
length-split_line (x ∷ xs) line rest h = elim (Option-cases (split_line xs)) [
  | inl e ↦ ground arith
  | inr ((l, r), e) ↦ ground (arith, length-split_line xs l r e)
]

module _ (parse : Text → Option Request) where
  -- A round that goes on leaves the buffers alone.
  serve_line-buffer :
      (s t : Server) (fd step : ℕ) (target : Text) (r : Option Request)
      → serve_line parse s fd target r ≡ some (t, step)
      → (step == 0) ≡ true
      → t.clients ≡ s.clients
  unfolding serve_line
  serve_line-buffer s t fd step target none h z = cc
  serve_line-buffer s t fd step target (some (try name age gender intro filter)) h z = ground arith
  serve_line-buffer s t fd step target (some quit) h z = ground arith
  serve_line-buffer s t fd step target (some message) h z = ground arith
  serve_line-buffer s t fd step target (some other) h z = ground arith

  serve_lines-ne-none :
      (fuel : ℕ) (s : Server) (fd : ℕ)
      → length (s.clients fd).tcp_buffer < fuel
      → serve_lines parse fuel s fd ≢ none
  unfolding serve_lines
  serve_lines-ne-none zero s fd few = absurd (omega arith)
  serve_lines-ne-none (suc fuel) s fd few =
      elim (Option-cases (split_line (s.clients fd).tcp_buffer)) [
        | inl e ↦ ground arith
        | inr ((target, rest), e) ↦
            let u = set_buffer parse s fd rest in
            let shorter = length-split_line (s.clients fd).tcp_buffer target rest e in
            elim (Option-cases (serve_line parse u fd target (parse target))) [
              | inl f ↦ ground arith
              | inr ((t, step), f) ↦ elim (Bool-cases (step == 0)) [
                | inl z ↦
                    let p = serve_line-buffer u t fd step target (parse target) f z in
                    let small : length (t.clients fd).tcp_buffer < fuel = rw p (ground arith) in
                    let ih = serve_lines-ne-none fuel t fd small in ground (arith, ih)
                | inr z ↦ ground arith
              ]
            ]
      ]

  -- The fuel of `new_msg` is enough for every buffer and every input.
  pub new_msg-ne-none : (s : Server) (fd : ℕ) (input : Text) → new_msg parse s fd input ≢ none
  unfolding new_msg
  new_msg-ne-none s fd input =
      let t = set_buffer parse s fd ((s.clients fd).tcp_buffer ++ c_string input) in
      serve_lines-ne-none (suc (length ((s.clients fd).tcp_buffer ++ c_string input))) t fd
        (ground arith)
