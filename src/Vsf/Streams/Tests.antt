-- ===== src/Vsf/Streams/Tests.antt =====
-- Runs of the stream manager.
use freak.Prelude.{ℕ, ◌+◌, refl, List, [], ◌∷◌, Bool, true, some, none}
use freak.Proto.Types.{StreamCfg, StreamCap}
use freak.Proto.{action_set, decode, encode, strlen}
use freak.Proto.Samples.{number, stream_codec, stream_cap_codec}
use freak.Msgbox.{serve, Param}
use freak.Msgbox.Serve.{handled, param_of}
use freak.Media.{Pack, Stream}
use freak.Vsf.{Info, Mfifo}
use freak.Vsf.Streams.{
  keep_stream_cfg, StreamMgr, Ufifo, vsf_stream_set, msgbox_vsf_stream, vsf_create_stream_mgr,
}
use freak.Vsf.Streams.Callbacks.{IsServed, handled-IsServed}

abbrev create : Mfifo → Bool
create f = true

abbrev takes : ℕ → Bool
takes chn = true

abbrev on : StreamCfg
on = record { id = 0; enable = 1; encode = 0; width = 1920; height = 1080; fps = 25 }

abbrev info : Info StreamCfg StreamCap
info = record { caps = record { id = 0; chn = 0; subchn = 0 } ∷ []; cfgs = on ∷ []; num = 1 }

abbrev messages : List Param
messages = param_of stream_codec action_set 0 0 on ∷ param_of stream_codec action_set 0 1 on ∷ []

abbrev after : StreamMgr
after =
    elim (handled (msgbox_vsf_stream create takes stream_codec stream_cap_codec number) messages
      (vsf_create_stream_mgr info)) [ some s ↦ s | none ↦ vsf_create_stream_mgr info ]

handled-IsServed_example : IsServed create takes after
unfolding vsf_create_stream_mgr vsf_stream_set handled serve decode encode strlen keep_stream_cfg
handled-IsServed_example =
    handled-IsServed create takes stream_codec stream_cap_codec number info messages after refl

-- A ring that counts the bytes in it, and a stream of one pack of three bytes.
abbrev pack : Pack
pack = record {
  phy_addr = 0;
  addr = 0;
  len = 4;
  offset = 1;
  pts = 40;
  pack_type = 5;
  pad = 0;
  mem = 7 ∷ 8 ∷ 9 ∷ [];
}

abbrev stream : Stream
stream = record { pst_pack = 0; packs = pack ∷ []; seq = 1; en_type = 0; pad = 0 }

abbrev counting : Ufifo ℕ
counting = record {
  size = λ n. 100;
  len = λ n. n;
  skip = λ n. 0;
  oldest = λ n. n;
  put = λ s m n. (m, n + m);
}
