-- ===== src/Lib.antt =====
-- ilibevent: an event loop after libevent. A client registers events for descriptors, signals
-- and times with an event_base; the loop waits, and calls the callbacks of the events that
-- became active.
--
-- The parts, and how they interact:
-- * Buffer models include/buffer.cpp, the byte queue of a connection: a struct evbuffer is
--   the contents of its allocation with the offsets that the source keeps. bufferevent and
--   the server use it.
-- * Time has the struct timeval and the macros of <sys/time.h> that the other parts use.
-- * MinHeap models include/minheap.cpp, the heap of the timeouts: the array, and the
--   min_heap_idx and ev_timeout of every event. shift_up, shift_down and refill are loops and
--   branches inside the functions of the source.
-- * TailQueue models the doubly linked lists that event.cpp keeps by hand, pointer by
--   pointer.
-- * State has struct event and struct event_base of include/event.hpp, and struct eventop of
--   include/epoll.hpp, through which event.cpp calls the backend.
-- * Event models include/event.cpp. Event.Queues has event_queue_insert and
--   event_queue_remove, which put an event on the event queue, the active queue of its
--   priority, or the heap. Event.Setup has event_set, event_base_set, event_priority_set,
--   event_pending and the functions of the base. Event.Add has event_add, event_del and
--   event_active. Event.Timer has timeout_next, timeout_correct and timeout_process.
--   Event.Loop has event_process_active and event_base_loop. Event.Lifecycle has the functions
--   that make, restart and free a base, and those that use an event once; Event.Current those
--   that use the variable current_base.
-- * Epoll models include/epoll.cpp, the backend: the array that says which event waits for
--   reading and for writing on each descriptor, and the calls of epoll_ctl and epoll_wait.
--   Epoll.Law fills the interface Event.Backend. Epoll.Lifecycle has epoll_init and epoll_dealloc.
-- * Signal models include/signal.cpp, the events for signals: the handler counts a signal and wakes
--   the loop through a socket. Signal.Backend gives its functions to Epoll, and
--   Signal.Start those of both to Event.
-- * Bufferevent models include/evbuffer.cpp: a bufferevent owns an input and an output queue and
--   an event for each, and calls the client. Bufferevent.State has the struct, the client and the
--   environment of one call, Setup the functions that make it and switch it on and off, Io those
--   that write and read, and Callbacks the two callbacks of its events. Bufferevent.Events is what
--   it needs of event.cpp, and that Event gives it.
-- * Workqueue models include/workqueue.cpp, the pool of threads of the server: the lists and
--   the mutex are a record, and Workqueue.Threads lets the threads take their steps in any order.
-- * Server models the callbacks of src/mainsvrd.cpp, a client of bufferevent that sends back what
--   it gets.
--
-- How the model corresponds to the code: every function of the source is a function here of
-- the same name, from the state and the arguments to the new state and the result. Option
-- stands for runs that may fault: `none` is an access out of bounds, a NULL pointer that is
-- followed, a failed assert, or a loop that still runs when its fuel is used up. An int is an
-- integer; an unsigned of 32 bits, and a size_t in the buffer, have their wrap-around written
-- out. An event is a number. A pointer to an event is that number or none. The bits of a mask
-- are the fields of a record.
--
-- What the program gets from outside is an argument: what the clock reads, whether realloc
-- gives memory, what read and write return, the callbacks, the kernel's side of epoll with
-- the documented effect of epoll_ctl, and the table of dispositions with that of sigaction. The
-- client of a bufferevent is a record of functions on the state of the program, and errno a Bool
-- that says whether it asks for another try. The threads of a workqueue may wake from
-- pthread_cond_wait at any time, as POSIX allows.
-- Event.Backend states what the theorems on event_add and event_del need of a backend, for
-- the events that it accepts: that `add` and `del` return and change the backend's own state
-- only.
--
-- Fuel: the loops of the heap get the number of its entries; timeout_process gets one round
-- more than the heap has events, since each round takes one out; the loop over the calls of a
-- callback gets the number of calls; evbuffer_expand gets 64 doublings, and epoll_recalc 31.
-- These are enough, as theorems show. The loop over an active queue and event_base_loop have
-- no bound in the source: the first has fuel, the second a list of clock readings, one for
-- each round. The loops of event_base_free, event_reinit and evsignal_process over lists of
-- events have fuel, too. The loop of buffered_on_read is given one round more than the input has
-- bytes, since each round takes at least one.
--
-- Event.Invariant is the invariant of an event_base between calls: the flags of an event say
-- which queues it is on, the queues are well linked, the heap is ordered and indexed, and
-- event_count and event_count_active count the events.
--
-- Not modelled: the log (include/log.cpp), of the server the functions that open and accept
-- connections and handle signals, which are calls of the system in a row, of signal.cpp the two
-- functions that only read a byte and set a flag of a socket, and what `free` does. The note of
-- evsignal_base at the start of event_base_loop is not in the model of the loop. A negative number
-- of priorities is not in the model, nor is a pointer ev_pncalls that dangles after
-- event_process_active has returned from inside its loop. A list that does not exist, which no
-- function of the source reads, counts as empty; a list that is new holds what its memory held until
-- it is assigned. The number of bytes that write(2) takes is not made an int: on Linux it is below
-- 2 ^ 31.
pub mod Base
pub mod Buffer
pub mod Time
pub mod MinHeap
pub mod TailQueue
pub mod State
pub mod Event
pub mod Epoll
pub mod Bufferevent
pub mod Workqueue
pub mod Signal
pub mod Server
