-- ===== src/Gpu/Webgpu/Run.antt =====
-- The commands `info` and `run` of tools/webgpu-host.c.
use leanexe.Base.{
  ℕ, ◌-◌, ◌*◌, ◌/◌, List, [], ◌∷◌, ◌++◌, ◌==◌, if◌then◌else◌, Text, codes, length, u64_mod,
}
use leanexe.Base.Decimal.{decimal}
use leanexe.Base.Lines.{c_string}
use leanexe.Gpu.Machine.{pure, ◌>>=◌, ◌>>◌, die, print}
use leanexe.Gpu.Words.{fill_word, has_colon, parse_word, words_of_bytes, comma_words, replicate}
use leanexe.Gpu.Webgpu.Api.{
  Call, Usage, Info, Api, Gpu, Host, print_view, call, call_or_die, call_succeeds, make_buffer,
  wait_map,
}
use leanexe.Gpu.Webgpu.Buffers.{read_file, parse_input}

unfoldable pub print_adapter : Info → Host (Unit {0})
print_adapter info = print (
    codes "vendor: "
    ++ (print_view info.vendor
        ++ (codes "\narchitecture: "
            ++ (print_view info.architecture
                ++ (codes "\ndevice: "
                    ++ (print_view info.device
                        ++ (codes "\ndescription: "
                            ++ (print_view info.description
                                ++ (codes "\nbackend: "
                                    ++ (decimal info.backend
                                        ++ (codes "\nadapter type: "
                                            ++ (decimal info.kind ++ codes "\n"))))))))))))

unfoldable pub print_info : Api → Gpu → Host (Unit {0})
print_info api gpu = do
  call_succeeds api (Call.adapter_info gpu.adapter) "wgpuAdapterGetInfo failed"
  λ w. print_adapter (api.info w.calls) w

-- The output's initial words.
unfoldable pub output_words : Text → Host (List ℕ)
output_words spec = if has_colon spec then parse_input spec else (do
  (count, end) ← parse_word spec ((u64_mod - 1) / 4)
  if count == 0 then die "the output needs at least one word" else pure (replicate count fill_word))

-- The bindings of the inputs, in their order.
unfoldable pub upload_all : Api → Gpu → List Text → Host (List (ℕ × ℕ))
upload_all api gpu [] = pure []
upload_all api gpu (spec ∷ specs) = do
  words ← parse_input spec
  buffer ← make_buffer api gpu (Usage.storage ∷ Usage.copy_dst ∷ []) (length words * 4)
  call api (Call.write_buffer gpu.queue buffer words)
  entries ← upload_all api gpu specs
  pure ((buffer, length words * 4) ∷ entries)

unfoldable pub make_pipeline : Api → Gpu → Text → Text → Host ℕ
make_pipeline api gpu code entry = do
  shader ← call api (Call.create_shader gpu.device (c_string code))
  call api (Call.create_pipeline gpu.device shader entry)

-- The pass over the bindings; it gives the encoder.
unfoldable pub encode_pass : Api → Gpu → ℕ → ℕ → ℕ → Host (ℕ × ℕ)
encode_pass api gpu pipeline group workgroups = do
  encoder ← call api (Call.create_encoder gpu.device)
  pass ← call api (Call.begin_pass encoder)
  call api (Call.set_pipeline pass pipeline)
  call api (Call.set_group pass group)
  call api (Call.dispatch pass workgroups)
  call api (Call.end_pass pass)
  pure (encoder, pass)

-- The dispatch, and the copy of the output to the buffer that is read back.
unfoldable pub dispatch_all : Api → Gpu → ℕ → ℕ → List (ℕ × ℕ) → ℕ → ℕ → ℕ → Host (Unit {0})
dispatch_all api gpu pipeline workgroups entries output readback bytes = do
  layout ← call api (Call.get_layout pipeline)
  group ← call api (Call.create_group gpu.device layout entries)
  (encoder, pass) ← encode_pass api gpu pipeline group workgroups
  call api (Call.copy_buffer encoder output readback bytes)
  commands ← call api (Call.finish_commands encoder)
  call api (Call.submit gpu.queue commands)
  pure tt

unfoldable pub run : Api → Gpu → Text → Text → ℕ → Text → List Text → Host (Unit {0})
run api gpu shader_path entry workgroups output_spec inputs = do
  initial ← output_words output_spec
  code ← read_file shader_path
  pipeline ← make_pipeline api gpu code entry
  entries ← upload_all api gpu inputs
  output ←
      make_buffer api gpu (Usage.storage ∷ Usage.copy_src ∷ Usage.copy_dst ∷ [])
        (length initial * 4)
  call api (Call.write_buffer gpu.queue output initial)
  readback ← make_buffer api gpu (Usage.map_read ∷ Usage.copy_dst ∷ []) (length initial * 4)
  dispatch_all api gpu pipeline workgroups (entries ++ (output, length initial * 4) ∷ []) output
      readback (length initial * 4)
  wait_map api gpu readback (length initial * 4)
  call_or_die api (Call.mapped_range readback (length initial * 4))
      "wgpuBufferGetConstMappedRange failed"
  λ w.
      print
        (comma_words (words_of_bytes (api.bytes w.calls readback (length initial * 4)))
          ++ codes "\n")
        w
