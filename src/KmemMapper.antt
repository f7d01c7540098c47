-- ===== src/KmemMapper.antt =====
-- kmem_mapper_module/kmem_mapper.c: the driver that shares a page with the programs.
pub mod Driver
pub mod Laws
pub mod Check
pub mod Pages
