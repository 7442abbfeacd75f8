-- ===== src/Lib.antt =====
-- Freak is a video pipeline of several processes: vsf captures and encodes, rtsp and web send
-- streams, app runs detection, bsp drives the board. They share media records in ring buffers
-- (mod/media) and talk by messages (mod/proto). The library has a module for each part.
--
-- - Que: mod/utils/common/src/que.c, the bounded queue between threads. Que.antt has the
--   operations (que_create, que_delete, que_put, que_get, que_peek, que_len, que_isempty,
--   que_isfull); Que/Ring has the invariant, Que/Fifo the list that the queue stands for,
--   Que/Calls the refinement, Que/Threads the waiting threads.
-- - Media: mod/media/src/video_stream.c and video_frame.c, the hooks that write and read a
--   record in a ring that may be cut anywhere, and the loops over the packs of a record in
--   mod/rtsp/src/rtsp/rtp-media.c and mod/web/src/web/web-media.c. Media/Copying and Media/Put
--   are about writing, Media/Get about reading, Media/Payload and Media/Roundtrip and
--   Media/FrameRoundtrip about both.
-- - Proto: mod/proto/inc/proto.h and mod/proto/jsonb/proto_hdr.h, the header and the two formats
--   of a message, and mod/proto/interface, the managers on the caller's side. Proto/Types has
--   the exchanged structures, Proto/Clients the functions of the managers, Proto/Laws the round
--   trip of the data. The generated JSON bindings and the memory layout are the parameter Codec,
--   with the laws IsCodec for the values that a C structure has.
-- - Msgbox: mod/proto/msgbox/msgbox.c, the table of nodes and handlers, and the handlers of the
--   msgbox_*.c files over the interface Manager. Msgbox/Routes is about the table, Msgbox/Serve
--   about a request from one process to another and about all that a handler may do to the
--   state.
-- - Vsf: mod/vsf/src/interface. Vsf/Frame is frame_mgr.c, Vsf/Streams stream_mgr.c, Vsf/Osd
--   osd_mgr.c: Vsf/Osd/Raster is about a character, Vsf/Osd/Drawing about a box, Vsf/Osd/Texts
--   about texts. Each state has the slots, the stored configuration and a log of the calls of
--   the video hardware, which is a parameter.
-- - Server: svr_mgr.c and the handlers of mod/rtsp and mod/web, which have the same text.
-- - App: mod/app/src/interface/alg_mgr.c and mod/app/src/msgbox/msgbox_alg.c. App/Cycle is about
--   an enable and a disable, App/Frames about the frames that the vsf process starts for it,
--   App/Objects about the objects that it finds.
-- - Rgn: mod/vsf-hi3516d/src/hal/rgn.c, the regions of the chip. Rgn/Order is about the order of
--   the calls, Rgn/Points about the points of a cover.
-- - Chip: mod/vsf-hi3516d/src/hal, the layers over the SDK of the chip. Chip/Life is about the
--   objects of sys.c, vi.c, vpss.c and venc.c, Chip/Races about the callbacks, Chip/Pump and
--   Chip/Turns about the threads.
-- - Bsp: mod/bsp/src/hal/dummy.c and mod/bsp/src/msgbox/msgbox_dummy.c.
-- - Memory: what is allocated and freed, for the parts whose life of objects is modelled.
-- - Startup: the main functions of mod/vsf/src/main.c, mod/rtsp/src/main.c and
--   mod/web/src/main.c. Startup/Loop has the loop over messages of a process to itself for any
--   manager, Startup/Video, Startup/Overlays and Startup/Servers what a turn does to each
--   manager, Startup/Process the vsf process.
-- - Conf: mod/utils/json-cfg/src/json-cfg.c. Conf/Files is about loading, Conf/Saving about
--   saving.
-- - Rings: mod/media/src/media.c. Rings/Names is about the names of the rings, Rings/Making
--   about the life of their objects.
-- - Mm: mod/utils/mm/src. Mm/Pages is about physmap and physunmap, Mm/Entries about virt2phys.
-- - Nnm: mod/utils/nnm/src, the wrappers of nanomsg. Nnm/Sockets is about the objects,
--   Nnm/Routines about the threads.
-- - Face: mod/alg-hi3516d/src/hal/face.c, the exchange of results between its two threads by a
--   queue of Que. Face/Results is about where the results are.
-- - Relay: __ws_recv of mod/web/src/main.c, which passes messages of web clients to the message
--   box. Relay/Messages is about a message and its answer.
-- - Log: mod/utils/log/src/log.c. Log/Messages is about log_printf.
-- - Rtsp: mod/rtsp/src/rtsp. Rtsp/Server is rtsp-server.c, Rtsp/Media and Rtsp/Sender
--   rtp-media.c, Rtsp/Framing rtp-transport-tcp.c. Rtsp/Owned, Rtsp/Requests, Rtsp/Ownership and
--   Rtsp/Runs are about what is allocated and freed; Rtsp/Phases, Rtsp/Sessions and Rtsp/Machine
--   about the states of the clients; Rtsp/Channels about the interleaved channels, Rtsp/Reader
--   about the frames, Rtsp/Ending about the sending thread. The media-server library and the
--   parser of URIs are parameters.
-- - Web: mod/web/src/web. Web.antt has the pieces of code of web-http.c and web-media.c between
--   which two threads may interleave, as a step relation; Web/Life has what lives when,
--   Web/Ending the end of the sending thread, Web/Listener the thread of the server.
--
-- A caller's request (Proto/Clients) goes through an exchange; Msgbox/Serve gives the exchange
-- with a process that runs msgbox_do_handler on its table, and the managers of Vsf, Server and
-- Bsp fill the table. The callbacks of Vsf write the records of Media into rings.
--
-- A failed assertion, an abort and a fault are none. What a handler returns is its value, its
-- output and the new state of its process.
--
-- Numbers are natural numbers with the wrap of the C type written out. Loops are structural
-- recursion over lists or over counts of steps left, so no fuel is needed; a blocking call takes
-- the list of its wake-ups and is still waiting when the list ends.
--
-- Not modelled: ufifo, nanomsg, cJSON, FreeType and the SDK of the chip, which are parameters.
-- Of the web server, that its manager may be freed and the memory of a session's buffer moved
-- under the other thread; of the face detection, the calls of the SDK and the conversion of the
-- objects.
pub mod Prelude
pub mod Que
pub mod Nnm
pub mod Relay
pub mod Face
pub mod Media
pub mod Proto
pub mod Msgbox
pub mod Vsf
pub mod Server
pub mod Startup
pub mod Conf
pub mod Rings
pub mod Mm
pub mod Log
pub mod Chip
pub mod App
pub mod Bsp
pub mod Memory
pub mod Rtsp
pub mod Web
pub mod Rgn
